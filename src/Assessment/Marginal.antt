-- ===== src/Assessment/Marginal.antt =====
-- What one more finding adds to the score that the buckets sum up to.
use fakedetector.Prelude.{
  ℕ, ◌+◌, ◌-◌, Bool, true, false, List, [], ◌∷◌, ◌++◌, ◌≡◌, ◌∙◌, refl, sym, ap, arith, leb, ok, All,
  Bool-cases, inl, inr, if◌then◌else◌, eq_iff,
}
use fakedetector.Domain.{Finding}
use fakedetector.Assessment.Scoring.{
  SeverityScores, severity_contribution, GroupKey, group_key, same_key, insert, sorted, Groups,
  add_member, group_from, grouped, ScoringBucket, precedes, least, bucket, buckets,
  build_scoring_buckets, total, id_at_most, group_at_most, correlation_group, finding,
}

abbrev greater : ℕ → ℕ → ℕ
greater a b = if leb a b then b else a

abbrev IsNonEmpty {ℓ} : {A : Type ℓ} → List A → Type 0
IsNonEmpty [] = false ≡ true
IsNonEmpty (x ∷ xs) = Unit

key-eq : (a b : GroupKey) → same_key a b ≡ true → a ≡ b
key-eq (correlation_group a) (correlation_group b) e = ap correlation_group ((eq_iff a b).0 e)
key-eq (finding a) (finding b) e = ap finding ((eq_iff a b).0 e)
key-eq (correlation_group a) (finding b) e = cc
key-eq (finding a) (correlation_group b) e = cc

key_refl : (a : GroupKey) → same_key a a ≡ true
key_refl (correlation_group a) = (eq_iff a a).1 refl
key_refl (finding a) = (eq_iff a a).1 refl

key-apart : (a b k : GroupKey) → same_key a b ≡ false → same_key a k ≡ true → same_key b k ≡ false
key-apart a b k e s = elim (Bool-cases (same_key b k)) [
  | inl u ↦ cc (e, ap (same_key a) (key-eq b k u), s)
  | inr d ↦ d
]

insert-IsNonEmpty {ℓ} :
    {A : Type ℓ} (at_most : A → A → Bool) (x : A) (xs : List A) → IsNonEmpty (insert at_most x xs)
unfolding insert
insert-IsNonEmpty at_most x [] = tt
insert-IsNonEmpty at_most x (y ∷ ys) = elim (Bool-cases (at_most x y)) [
  | inl t ↦ rw t tt
  | inr e ↦ rw e tt
]

abbrev AllNonEmpty : Groups → Type 0
AllNonEmpty = All (λ g. IsNonEmpty g.1)

insert-AllNonEmpty :
    (g : GroupKey × List Finding) (gs : Groups)
    → IsNonEmpty g.1
    → AllNonEmpty gs
    → AllNonEmpty (insert group_at_most g gs)
unfolding insert
insert-AllNonEmpty g [] h k = (h, tt)
insert-AllNonEmpty g (j ∷ gs) h k = elim (Bool-cases (group_at_most g j)) [
  | inl t ↦ rw t (h, k)
  | inr e ↦ rw e (k.0, insert-AllNonEmpty g gs h k.1)
]

sorted-AllNonEmpty : (gs : Groups) → AllNonEmpty gs → AllNonEmpty (sorted group_at_most gs)
unfolding sorted
sorted-AllNonEmpty [] h = tt
sorted-AllNonEmpty (g ∷ gs) h = insert-AllNonEmpty g _ h.0 (sorted-AllNonEmpty gs h.1)

append-IsNonEmpty {ℓ} : {A : Type ℓ} (xs : List A) (x : A) → IsNonEmpty (xs ++ (x ∷ []))
append-IsNonEmpty [] x = tt
append-IsNonEmpty (y ∷ ys) x = tt

add_member-AllNonEmpty :
    (f : Finding) (gs : Groups) → AllNonEmpty gs → AllNonEmpty (add_member f gs)
unfolding add_member
add_member-AllNonEmpty f [] h = (tt, tt)
add_member-AllNonEmpty f ((key, members) ∷ gs) h = elim (Bool-cases (same_key key (group_key f))) [
  | inl t ↦ rw t (append-IsNonEmpty members f, h.1)
  | inr e ↦ rw e (h.0, add_member-AllNonEmpty f gs h.1)
]

group_from-AllNonEmpty :
    (gs : Groups) (fs : List Finding) → AllNonEmpty gs → AllNonEmpty (group_from gs fs)
unfolding group_from
group_from-AllNonEmpty gs [] h = h
group_from-AllNonEmpty gs (f ∷ fs) h =
    group_from-AllNonEmpty (add_member f gs) fs (add_member-AllNonEmpty f gs h)

group_from-append :
    (gs : Groups) (fs : List Finding) (f : Finding)
    → group_from gs (fs ++ (f ∷ [])) ≡ add_member f (group_from gs fs)
unfolding group_from
group_from-append gs [] f = refl
group_from-append gs (g ∷ fs) f = group_from-append (add_member g gs) fs f

module _ (scores : SeverityScores) where
  -- the greatest contribution among the findings
  unfoldable top : List Finding → ℕ
  top [] = 0
  top (f ∷ fs) = greater (severity_contribution scores f) (top fs)

  -- The greatest contribution among the findings of a group, 0 for none.
  unfoldable pub peak : GroupKey → List Finding → ℕ
  peak key [] = 0
  peak key (f ∷ fs) =
      if same_key (group_key f) key
      then greater (severity_contribution scores f) (peak key fs)
      else peak key fs

  top-one : (f : Finding) → top (f ∷ []) ≡ greater 0 (severity_contribution scores f)
  unfolding top
  top-one f = ground arith

  top-insert :
      (f : Finding) (fs : List Finding)
      → top (insert id_at_most f fs) ≡ greater (severity_contribution scores f) (top fs)
  unfolding insert top
  top-insert f [] = refl
  top-insert f (g ∷ gs) = elim (Bool-cases (id_at_most f g)) [
    | inl t ↦ rw t refl
    | inr e ↦ rw e (ground (arith, top-insert f gs))
  ]

  top-sorted : (fs : List Finding) → top (sorted id_at_most fs) ≡ top fs
  unfolding sorted top
  top-sorted [] = refl
  top-sorted (f ∷ fs) = top-insert f (sorted id_at_most fs) ∙ ap (greater _) (top-sorted fs)

  contribution-least :
      (f : Finding) (fs : List Finding)
      → severity_contribution scores (least scores f fs)
        ≡ greater (severity_contribution scores f) (top fs)
  unfolding least top precedes
  contribution-least f [] = ground arith
  contribution-least f (g ∷ gs) = elim (Bool-cases (precedes scores g f)) [
    | inl t ↦ rw t (ground (arith, contribution-least g gs))
    | inr e ↦ rw e (ground (arith, contribution-least f gs))
  ]

  top-append :
      (fs : List Finding) (f : Finding)
      → top (fs ++ (f ∷ [])) ≡ greater (top fs) (severity_contribution scores f)
  unfolding top
  top-append [] f = ground arith
  top-append (g ∷ fs) f = ground (arith, top-append fs f)

  bucket-top :
      (key : GroupKey) (members : List Finding)
      → IsNonEmpty members
      → (b : ScoringBucket) × (bucket scores (key, members) ≡ ok b) × (b.contribution ≡ top members)
  unfolding bucket sorted top
  bucket-top key [] h = cc
  bucket-top key (f ∷ fs) h =
      go (insert id_at_most f (sorted id_at_most fs)) refl
        (insert-IsNonEmpty id_at_most f (sorted id_at_most fs))
    where
      go :
          (ordered : List Finding)
          → sorted id_at_most (f ∷ fs) ≡ ordered
          → IsNonEmpty ordered
          → (b : ScoringBucket) × (bucket scores (key, f ∷ fs) ≡ ok b)
            × (b.contribution ≡ top (f ∷ fs))
      go [] e n = cc
      go (g ∷ gs) e n =
          rw e (_, refl, contribution-least g gs ∙ ap top (sym e) ∙ top-sorted (f ∷ fs))

  -- the sum of the greatest contributions of the groups
  unfoldable weigh : Groups → ℕ
  weigh [] = 0
  weigh ((key, members) ∷ gs) = top members + weigh gs

  weigh-insert :
      (g : GroupKey × List Finding) (gs : Groups)
      → weigh (insert group_at_most g gs) ≡ top g.1 + weigh gs
  unfolding insert weigh
  weigh-insert g [] = refl
  weigh-insert g (j ∷ gs) = elim (Bool-cases (group_at_most g j)) [
    | inl t ↦ rw t refl
    | inr e ↦ rw e (omega (arith, weigh-insert g gs))
  ]

  weigh-sorted : (gs : Groups) → weigh (sorted group_at_most gs) ≡ weigh gs
  unfolding sorted weigh
  weigh-sorted [] = refl
  weigh-sorted (g ∷ gs) = weigh-insert g _ ∙ ap (λ n. top g.1 + n) (weigh-sorted gs)

  total-weigh :
      (gs : Groups)
      → AllNonEmpty gs
      → (bs : List ScoringBucket) × (buckets scores gs ≡ ok bs) × (total bs ≡ weigh gs)
  unfolding buckets total weigh
  total-weigh [] h = ([], refl, refl)
  total-weigh ((key, members) ∷ gs) h =
      let (b, made, size) = bucket-top key members h.0 in
      let (bs, rest, sum) = total-weigh gs h.1 in
      rw made (rw rest (b ∷ bs, refl, omega (arith, size, sum)))

  -- the greatest contribution of the first group at the key
  unfoldable found : GroupKey → Groups → ℕ
  found k [] = 0
  found k ((key, members) ∷ gs) = if same_key key k then top members else found k gs

  found-add_member :
      (k : GroupKey) (f : Finding) (gs : Groups)
      → found k (add_member f gs) ≡ (
          if same_key (group_key f) k
          then greater (found k gs) (severity_contribution scores f)
          else found k gs)
  unfolding found add_member
  found-add_member k f [] = ground (arith, top-one f)
  found-add_member k f ((key, members) ∷ gs) = elim (Bool-cases (same_key key (group_key f))) [
    | inl t ↦ rw t (rw (key-eq key (group_key f) t) (ground (arith, top-append members f)))
    | inr e ↦ rw e (elim (Bool-cases (same_key key k)) [
      | inl s ↦ rw s (rw (key-apart key (group_key f) k e s) refl)
      | inr d ↦ rw d (found-add_member k f gs)
    ])
  ]

  found-group_from :
      (k : GroupKey) (gs : Groups) (fs : List Finding)
      → found k (group_from gs fs) ≡ greater (found k gs) (peak k fs)
  unfolding group_from peak
  found-group_from k gs [] = ground arith
  found-group_from k gs (f ∷ fs) =
      ground (arith, found-group_from k (add_member f gs) fs, found-add_member k f gs)

  weigh-add_member :
      (f : Finding) (gs : Groups)
      → weigh (add_member f gs)
        ≡ weigh gs + (severity_contribution scores f - found (group_key f) gs)
  unfolding weigh add_member found top
  weigh-add_member f [] = ground arith
  weigh-add_member f ((key, members) ∷ gs) = elim (Bool-cases (same_key key (group_key f))) [
    | inl t ↦ rw t (ground (arith, top-append members f))
    | inr e ↦ rw e (omega (arith, weigh-add_member f gs))
  ]

  score-weigh :
      (fs : List Finding)
      → (bs : List ScoringBucket) × (build_scoring_buckets scores fs ≡ ok bs)
        × (total bs ≡ weigh (grouped fs))
  score-weigh fs =
      let (bs, built, sum) =
        total-weigh _ (sorted-AllNonEmpty _ (group_from-AllNonEmpty [] fs tt)) in
      (bs, built, sum ∙ weigh-sorted (grouped fs))

  pub buckets_built :
      (fs : List Finding) → (bs : List ScoringBucket) × (build_scoring_buckets scores fs ≡ ok bs)
  buckets_built fs = let (bs, built, sum) = score-weigh fs in (bs, built)

  -- The buckets can be built for all findings, and one more finding, wherever its id sorts, raises
  -- the score by as much as its contribution exceeds the greatest of its group so far, or by
  -- nothing.
  pub score_marginal :
      (fs : List Finding) (f : Finding)
      → (bs more : List ScoringBucket) × (build_scoring_buckets scores fs ≡ ok bs)
        × (build_scoring_buckets scores (fs ++ (f ∷ [])) ≡ ok more)
        × (total more ≡ total bs + (severity_contribution scores f - peak (group_key f) fs))
  unfolding found
  score_marginal fs f =
      let (bs, built, sum) = score-weigh fs in
      let (more, built_more, sum_more) = score-weigh (fs ++ (f ∷ [])) in
      let grown : weigh (grouped (fs ++ (f ∷ []))) ≡ weigh (add_member f (grouped fs)) =
        ap weigh (group_from-append [] fs f) in
      let added = weigh-add_member f (grouped fs) in
      let seen = found-group_from (group_key f) [] fs in
      (bs, more, built, built_more, ground (arith, sum, sum_more, grown, added, seen))
