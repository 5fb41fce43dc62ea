-- ===== src/Preprocessing/Budget.antt =====
-- fakedetector/_generated_artifact_budget.py: the byte budget of one task and the bounded writer of
-- each generated file. What the file object below a writer does is an argument: whether a call
-- raises an OSError, and how many bytes of a write it leaves out.
pub mod Bounds
use fakedetector.Prelude.{
  ℕ, ◌+◌, ◌-◌, ◌*◌, Bool, true, false, ◌&&◌, ◌||◌, not, Option, none, some, List, [], ◌∷◌, ◌++◌,
  Result, ok, err, artifact_limit, artifact_write, value_error, guard, ltb, leb, ◌==◌,
  if◌then◌else◌,
}
use fakedetector.Prelude.Runs.{Run, returned, raised, Action, proceed, ◌>>=◌, ◌>>◌, from_result}

-- _GeneratedArtifactBudget
pub record ArtifactBudget : Type 0 where
  pub max_bytes : ℕ
  pub used_bytes : ℕ

unfoldable pub new_budget : ℕ → ArtifactBudget
new_budget max_mebibytes = record { max_bytes = max_mebibytes * 1048576; used_bytes = 0 }

-- Used bytes never exceed the maximum, so the subtraction is exact.
abbrev pub remaining_bytes : ArtifactBudget → ℕ
remaining_bytes b = b.max_bytes - b.used_bytes

unfoldable pub ensure_feasible : ℕ → ArtifactBudget → Result (Unit {0})
ensure_feasible estimated b = guard (not (ltb (remaining_bytes b) estimated)) artifact_limit

-- _claim_extent
unfoldable pub claim_extent : ℕ → ArtifactBudget → Result ArtifactBudget
claim_extent additional b =
    if additional == 0
    then ok b
    else if ltb (remaining_bytes b) additional
    then err artifact_limit
    else ok (record b { used_bytes = b.used_bytes + additional })

-- _BoundedArtifactWriter, with the size and the position of the file below it.
pub record ArtifactWriter : Type 0 where
  pub extent : ℕ
  pub closed : Bool
  pub size : ℕ
  pub position : ℕ

unfoldable pub new_writer : ArtifactWriter
new_writer = record { extent = 0; closed = false; size = 0; position = 0 }

pub record Output : Type 0 where
  pub budget : ArtifactBudget
  pub writer : ArtifactWriter

-- The calls of a writer, with what the file does: a write leaves out the last `missing` of its
-- bytes, and `fails` says that the file raises an OSError.
pub data Operation : Type 0 where
  writes : (byte_count missing : ℕ) → (tell_fails fails : Bool) → Operation
  truncates : (size : Option ℕ) → (tell_fails fails : Bool) → Operation
  seeks : (position : ℕ) → (fails : Bool) → Operation
  flushes : (fails : Bool) → Operation
  closes : (fails : Bool) → Operation

abbrev pub larger : ℕ → ℕ → ℕ
larger a b = if leb a b then b else a

-- A closed file raises a ValueError, a broken one an OSError that the writer maps.
abbrev file_call : Bool → Output → Result (Unit {0})
file_call fails o =
    if o.writer.closed then err value_error else if fails then err artifact_write else ok tt

abbrev on_file : Bool → Action Output (Unit {0})
on_file fails o = from_result (file_call fails o) o

abbrev tell : Bool → Action Output ℕ
tell fails = do on_file fails; λ o. returned o.writer.position o

-- target_extent = max(self._extent, end); self._budget._claim_extent(...); self._extent = ...
abbrev reserve_extent : ℕ → Action Output (Unit {0})
reserve_extent end o =
    let target = larger o.writer.extent end in
    (from_result (claim_extent (target - o.writer.extent) o.budget) >>= λ b v.
    returned tt (record { budget = b; writer = record v.writer { extent = target } }))
      o

-- The bytes that a write puts into the file, from the position on.
abbrev written_file : ℕ → ArtifactWriter → ArtifactWriter
written_file count w =
    if count == 0
    then w
    else record w { size = larger w.size (w.position + count); position = w.position + count }

abbrev put_bytes : ℕ → Action Output (Unit {0})
put_bytes count o = returned tt (record o { writer = written_file count o.writer })

unfoldable pub write : ℕ → ℕ → Bool → Bool → Action Output (Unit {0})
unfolding claim_extent
write byte_count missing tell_fails fails = do
  position ← tell tell_fails
  reserve_extent (position + byte_count)
  put_bytes (byte_count - missing)
  from_result (guard (not fails) artifact_write)
  from_result (guard ((byte_count - missing) == byte_count) artifact_write)

abbrev target_of : Option ℕ → ℕ → ℕ
target_of none position = position
target_of (some size) position = size

-- tell is called when no size is given
abbrev told : Option ℕ → Bool → Action Output ℕ
told none tell_fails o = tell tell_fails o
told (some size) tell_fails o = returned size o

unfoldable pub truncate : Option ℕ → Bool → Bool → Action Output (Unit {0})
unfolding claim_extent
truncate size tell_fails fails = do
  target ← told size tell_fails
  reserve_extent target
  on_file fails
  λ o. returned tt (record o { writer = record o.writer { size = target } })

unfoldable pub seek : ℕ → Bool → Action Output (Unit {0})
seek position fails = do
  on_file fails
  λ o. returned tt (record o { writer = record o.writer { position = position } })

unfoldable pub flush : Bool → Action Output (Unit {0})
flush fails = on_file fails

-- `finally` marks the writer closed whether or not the file's own close raises.
unfoldable pub close : Bool → Action Output (Unit {0})
close fails o =
    if o.writer.closed
    then returned tt o
    else let done = record o { writer = record o.writer { closed = true } } in
      if fails then raised artifact_write done else returned tt done

unfoldable pub operate : Operation → Action Output (Unit {0})
unfolding write truncate seek flush close
operate (writes byte_count missing tell_fails fails) = write byte_count missing tell_fails fails
operate (truncates size tell_fails fails) = truncate size tell_fails fails
operate (seeks position fails) = seek position fails
operate (flushes fails) = flush fails
operate (closes fails) = close fails

-- the state after a call, whether it returned or raised
abbrev pub left_by : Run Output (Unit {0}) → Output
left_by (returned done o) = o
left_by (raised exception o) = o

-- A task: its budget and every file that it has opened.
pub record Artifacts : Type 0 where
  pub budget : ArtifactBudget
  pub writers : List ArtifactWriter

-- `open_output` adds a file, and a call works on one of the files.
pub data Step : Artifacts → Artifacts → Type 0 where
  opens :
      (b : ArtifactBudget) (ws : List ArtifactWriter)
      → Step
          (record { budget = b; writers = ws })
          (record { budget = b; writers = new_writer ∷ ws })
  calls :
      (op : Operation) (b : ArtifactBudget) (before after : List ArtifactWriter)
      (w : ArtifactWriter)
      → Step
          (record { budget = b; writers = before ++ w ∷ after })
          (record {
            budget = (left_by (operate op (record { budget = b; writer = w }))).budget;
            writers =
                before ++ (left_by (operate op (record { budget = b; writer = w }))).writer ∷ after;
          })

pub data Reach (max_mebibytes : ℕ) : Artifacts → Type 0 where
  starts : Reach max_mebibytes (record { budget = new_budget max_mebibytes; writers = [] })
  steps : {s t : Artifacts} → Reach max_mebibytes s → Step s t → Reach max_mebibytes t
