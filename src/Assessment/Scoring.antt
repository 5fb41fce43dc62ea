-- ===== src/Assessment/Scoring.antt =====
-- `_severity_contribution`, `_build_scoring_buckets` and the sum of the contributions of
-- fakedetector/lifecycle/_assessment.py.
use Prim.Native.String.{compare as compare_text}
use Prim.Native.Nat.{Ordering}
use fakedetector.Prelude.{
  ℕ, ◌+◌, String, Bool, true, false, ◌&&◌, ◌||◌, Option, none, some, List, [], ◌∷◌, ◌++◌, ◌==◌, ltb,
  str_eq, Result, ok, err, value_error, ◌>>=◌, if◌then◌else◌,
}
use fakedetector.Domain.{Finding, FindingSeverity}

-- SeverityScores
pub record SeverityScores : Type 0 where
  pub weak : ℕ
  pub significant : ℕ
  pub critical : ℕ

-- `a < b` on str
abbrev pub text_less : String → String → Bool
text_less a b = elim (compare_text a b) [ Ordering.lt ↦ true | _ ↦ false ]

-- `a <= b` on str
abbrev pub text_at_most : String → String → Bool
text_at_most a b = elim (compare_text a b) [ Ordering.gt ↦ false | _ ↦ true ]

unfoldable pub severity_contribution : SeverityScores → Finding → ℕ
severity_contribution scores f = elim (f.severity) [
  | FindingSeverity.weak ↦ scores.weak
  | FindingSeverity.significant ↦ scores.significant
  | FindingSeverity.critical ↦ scores.critical
]

-- The tuple (kind, value) that findings are grouped by.
pub data GroupKey : Type 0 where
  correlation_group finding : String → GroupKey

abbrev pub group_key : Finding → GroupKey
group_key f = elim (f.correlation_group) [
  | none ↦ finding f.finding_id
  | some g ↦ correlation_group g
]

abbrev pub same_key : GroupKey → GroupKey → Bool
same_key (correlation_group a) (correlation_group b) = str_eq a b
same_key (finding a) (finding b) = str_eq a b
same_key _ _ = false

abbrev key_at_most : GroupKey → GroupKey → Bool
key_at_most (correlation_group a) (correlation_group b) = text_at_most a b
key_at_most (finding a) (finding b) = text_at_most a b
key_at_most (correlation_group a) (finding b) = true
key_at_most (finding a) (correlation_group b) = false

-- sorted, by insertion: stable, as Python's
module _ {ℓ} {A : Type ℓ} (at_most : A → A → Bool) where
  unfoldable pub insert : A → List A → List A
  insert x [] = x ∷ []
  insert x (y ∷ ys) = if at_most x y then x ∷ y ∷ ys else y ∷ insert x ys

  unfoldable pub sorted : List A → List A
  sorted [] = []
  sorted (x ∷ xs) = insert x (sorted xs)

abbrev pub id_at_most : Finding → Finding → Bool
id_at_most f g = text_at_most f.finding_id g.finding_id

abbrev pub Groups : Type 0
Groups = List (GroupKey × List Finding)

abbrev pub group_at_most : (GroupKey × List Finding) → (GroupKey × List Finding) → Bool
group_at_most g h = key_at_most g.0 h.0

-- grouped.setdefault(group_key, []).append(finding)
unfoldable pub add_member : Finding → Groups → Groups
add_member f [] = (group_key f, f ∷ []) ∷ []
add_member f ((key, members) ∷ groups) =
    if same_key key (group_key f)
    then (key, members ++ (f ∷ [])) ∷ groups
    else (key, members) ∷ add_member f groups

unfoldable pub group_from : Groups → List Finding → Groups
group_from groups [] = groups
group_from groups (f ∷ fs) = group_from (add_member f groups) fs

abbrev pub grouped : List Finding → Groups
grouped = group_from []

pub record ScoringBucket : Type 0 where
  pub key : GroupKey
  pub correlation : Option String
  pub findings : List Finding
  pub representative : Finding
  pub contribution : ℕ

abbrev correlation_of : GroupKey → Option String
correlation_of (correlation_group g) = some g
correlation_of (finding f) = none

module _ (scores : SeverityScores) where
  -- (-contribution, finding_id) of `f` is less than that of `g`
  unfoldable pub precedes : Finding → Finding → Bool
  precedes f g =
      let c = severity_contribution scores f in
      let d = severity_contribution scores g in
      ltb d c || ((c == d) && text_less f.finding_id g.finding_id)

  -- min: the first of the least
  unfoldable pub least : Finding → List Finding → Finding
  least f [] = f
  least f (g ∷ gs) = least (if precedes g f then g else f) gs

  -- min raises ValueError on an empty list
  abbrev pub representative_of : List Finding → Result Finding
  representative_of [] = err value_error
  representative_of (f ∷ fs) = ok (least f fs)

  unfoldable pub bucket : (GroupKey × List Finding) → Result ScoringBucket
  bucket (key, members) = do
    let ordered = sorted id_at_most members
    representative ← representative_of ordered
    ok record {
      key = key;
      correlation = correlation_of key;
      findings = ordered;
      representative = representative;
      contribution = severity_contribution scores representative;
    }

  unfoldable pub buckets : Groups → Result (List ScoringBucket)
  buckets [] = ok []
  buckets (g ∷ gs) = do first ← bucket g; rest ← buckets gs; ok (first ∷ rest)

  abbrev pub build_scoring_buckets : List Finding → Result (List ScoringBucket)
  build_scoring_buckets fs = buckets (sorted group_at_most (grouped fs))

unfoldable pub total : List ScoringBucket → ℕ
total [] = 0
total (b ∷ bs) = b.contribution + total bs
