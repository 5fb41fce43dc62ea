-- ===== src/Preprocessing/Budget/Bounds.antt =====
-- That the files of a task stay within its budget (fakedetector/_generated_artifact_budget.py).
use fakedetector.Prelude.{
  ℕ, ◌+◌, ◌*◌, ◌≤◌, none, some, List, [], ◌∷◌, ◌++◌, ◌≡◌, refl, arith, All, ◌∙◌,
}
use fakedetector.Preprocessing.Budget.{
  ArtifactWriter, Output, Operation, writes, truncates, seeks, flushes, closes, new_budget,
  new_writer, claim_extent, write, truncate, seek, flush, close, operate, left_by, Artifacts, Step,
  opens, calls, Reach, starts, steps,
}

-- What the budget has given to a file is what the file's extent has grown by, and a file is no
-- longer than its extent.
record Charged (o p : Output) : Type 0 where
  spent : p.budget.used_bytes + o.writer.extent ≡ o.budget.used_bytes + p.writer.extent
  same_max : p.budget.max_bytes ≡ o.budget.max_bytes
  within : p.budget.used_bytes ≤ p.budget.max_bytes
  fits : p.writer.size ≤ p.writer.extent

operate-Charged :
    (op : Operation) (o : Output)
    → o.budget.used_bytes ≤ o.budget.max_bytes
    → o.writer.size ≤ o.writer.extent
    → Charged o (left_by (operate op o))
unfolding operate write truncate seek flush close claim_extent
operate-Charged (writes n m t f) o h k = record {
  spent = ground arith;
  same_max = ground arith;
  within = ground arith;
  fits = ground arith;
}
operate-Charged (truncates none t f) o h k = record {
  spent = ground arith;
  same_max = ground arith;
  within = ground arith;
  fits = ground arith;
}
operate-Charged (truncates (some n) t f) o h k = record {
  spent = ground arith;
  same_max = ground arith;
  within = ground arith;
  fits = ground arith;
}
operate-Charged (seeks n f) o h k = record {
  spent = ground arith;
  same_max = ground arith;
  within = ground arith;
  fits = ground arith;
}
operate-Charged (flushes f) o h k = record {
  spent = ground arith;
  same_max = ground arith;
  within = ground arith;
  fits = ground arith;
}
operate-Charged (closes f) o h k = record {
  spent = ground arith;
  same_max = ground arith;
  within = ground arith;
  fits = ground arith;
}

-- The extents and the sizes of the files of a task.
unfoldable pub total_extent : List ArtifactWriter → ℕ
total_extent [] = 0
total_extent (w ∷ ws) = w.extent + total_extent ws

unfoldable pub total_size : List ArtifactWriter → ℕ
total_size [] = 0
total_size (w ∷ ws) = w.size + total_size ws

total_extent-append :
    (xs ys : List ArtifactWriter) → total_extent (xs ++ ys) ≡ total_extent xs + total_extent ys
unfolding total_extent
total_extent-append [] ys = omega arith
total_extent-append (w ∷ xs) ys = omega (arith, total_extent-append xs ys)

abbrev AllFit : List ArtifactWriter → Type 0
AllFit = All (λ w. w.size ≤ w.extent)

AllFit-total : (ws : List ArtifactWriter) → AllFit ws → total_size ws ≤ total_extent ws
unfolding total_size total_extent
AllFit-total [] h = omega arith
AllFit-total (w ∷ ws) h = omega (arith, h.0, AllFit-total ws h.1)

-- An element of a list that fits, and the list with another in its place.
AllFit-at :
    (before after : List ArtifactWriter) (w : ArtifactWriter)
    → AllFit (before ++ w ∷ after)
    → w.size ≤ w.extent
AllFit-at [] after w h = h.0
AllFit-at (x ∷ before) after w h = AllFit-at before after w h.1

AllFit-put :
    (before after : List ArtifactWriter) (v w : ArtifactWriter)
    → v.size ≤ v.extent
    → AllFit (before ++ w ∷ after)
    → AllFit (before ++ v ∷ after)
AllFit-put [] after v w k h = (k, h.1)
AllFit-put (x ∷ before) after v w k h = (h.0, AllFit-put before after v w k h.1)

-- The budget has charged exactly the extents, and is not exceeded.
pub record IsCharged (max_mebibytes : ℕ) (a : Artifacts) : Type 0 where
  pub charged : a.budget.used_bytes ≡ total_extent a.writers
  pub maximum : a.budget.max_bytes ≡ max_mebibytes * 1048576
  pub bounded : a.budget.used_bytes ≤ a.budget.max_bytes
  pub fitting : AllFit a.writers

Step-IsCharged : (m : ℕ) {s t : Artifacts} → Step s t → IsCharged m s → IsCharged m t
unfolding total_extent new_writer
Step-IsCharged m (opens b ws) h = record {
  charged = omega (arith, h.charged);
  maximum = h.maximum;
  bounded = h.bounded;
  fitting = (omega arith, h.fitting);
}
Step-IsCharged m (calls op b before after w) h =
    let o : Output = record { budget = b; writer = w } in
    let done = operate-Charged op o h.bounded (AllFit-at before after w h.fitting) in
    let p = left_by (operate op o) in
    let old = total_extent-append before (w ∷ after) in
    let new = total_extent-append before (p.writer ∷ after) in
    record {
      charged = omega (arith, h.charged, done.spent, old, new);
      maximum = done.same_max ∙ h.maximum;
      bounded = done.within;
      fitting = AllFit-put before after p.writer w done.fits h.fitting;
    }

Reach-IsCharged : (m : ℕ) {a : Artifacts} → Reach m a → IsCharged m a
unfolding new_budget total_extent
Reach-IsCharged m starts = record {
  charged = refl;
  maximum = refl;
  bounded = omega arith;
  fitting = tt;
}
Reach-IsCharged m (steps r s) = Step-IsCharged m s (Reach-IsCharged m r)

-- Whatever files a task opens, and however their calls interleave and fail, the bytes that the
-- budget has charged are the extents of its files, and the files together never hold more than the
-- configured number of mebibytes.
pub files_within_budget :
    (max_mebibytes : ℕ) {a : Artifacts}
    → Reach max_mebibytes a
    → (a.budget.used_bytes ≡ total_extent a.writers)
      × (total_size a.writers ≤ max_mebibytes * 1048576)
files_within_budget m {a} r =
    let h = Reach-IsCharged m r in
    (h.charged, omega (arith, AllFit-total a.writers h.fitting, h.charged, h.maximum, h.bounded))
