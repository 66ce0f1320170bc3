-- ===== src/Leases/Order.antt =====
-- Which waiting lease a claim may promote.
use mathlib.Core.List.{Memᴰ}
use mathlib.Core.List.Memᴰ.{head, tail}
use gd_sync_harness.Prelude.{
  ℕ, ◌<?◌, lt_neg_trans, lt_irrefl, subst, ap, ◌∙◌, ◌<◌, String, ◌≡◌, ◌≢◌, if◌then◌else◌, refl, sym,
  Bool, true, false, not, ◌&&◌, ◌||◌, Option, none, some, inl, inr, List, [], ◌∷◌, All, All-imp,
  str_eq, ltb, leb, arith, eq_iff, Bool-cases, Option-cases,
}
use gd_sync_harness.Db.Table.{delete_where, count_where}
use gd_sync_harness.Leases.{
  Lease, waits_on, runs_on, is_expired, before, better, first_waiting, try_claim,
}

-- `a` outranks `b`: a higher priority, or the same priority and an earlier creation.
abbrev pub outranks : Lease → Lease → Bool
outranks a b =
    b.priority <? a.priority || (not (a.priority <? b.priority) && ltb a.created_at b.created_at)

outranks-neg_trans :
    (a b c : Lease) → outranks a b ≡ false → outranks b c ≡ false → outranks a c ≡ false
outranks-neg_trans a b c h k = ground (
  arith,
  lt_neg_trans a.priority b.priority c.priority,
  lt_neg_trans c.priority b.priority a.priority,
)

before-outranks : (a b : Lease) → before a b ≡ false → outranks a b ≡ false
unfolding before
before-outranks a b h = ground arith

before-not : (a b : Lease) → before a b ≡ true → outranks b a ≡ false
unfolding before
before-not a b h = ground arith

outranks_irrefl : (a : Lease) → outranks a a ≡ false
outranks_irrefl a = ground (arith, lt_irrefl a.priority)

pub none_not_some {ℓ} : {A : Type ℓ} {a : A} → none ≢ some a
none_not_some h = ground arith

some_injective {ℓ} : {A : Type ℓ} {a b : A} → some a ≡ some b → a ≡ b
some_injective h = ground arith

pub true_not_false : true ≢ false
true_not_false h = ground arith

better-some : (l : Lease) (o : Option Lease) → better l o ≢ none
unfolding better
better-some l none h = none_not_some (sym h)
better-some l (some m) h = none_not_some (sym h)

-- `f` waits on the remote, and no waiting lease outranks it.
abbrev pub Leads : String → Lease → List Lease → Type 0
Leads remote f ls =
    (waits_on remote f ≡ true) × All (λ l. waits_on remote l ≡ true → outranks l f ≡ false) ls

first_waiting-none :
    (remote : String) (ls : List Lease)
    → first_waiting remote ls ≡ none
    → All (λ l. waits_on remote l ≡ false) ls
unfolding first_waiting
first_waiting-none remote [] h = tt
first_waiting-none remote (l ∷ ls) h = elim (Bool-cases (waits_on remote l)) [
  | inr b ↦ (b, first_waiting-none remote ls (rw b at h))
  | inl b ↦ absurd (better-some l (first_waiting remote ls) (rw b at h))
]

-- One step: the better of `l` and the best of the rest.
better-Leads :
    (remote : String) (l m : Lease) (ls : List Lease)
    → waits_on remote l ≡ true
    → Leads remote m ls
    → Leads remote (if before m l then m else l) (l ∷ ls)
better-Leads remote l m ls w (wm, best) = elim (Bool-cases (before m l)) [
  | inl b ↦ subst (λ x. Leads remote x (l ∷ ls)) (sym (kept b)) (wm, (λ h. before-not m l b, best))
  | inr b ↦
      subst (λ x. Leads remote x (l ∷ ls)) (sym (changed b))
        (
          w,
          (
            λ h. outranks_irrefl l,
            All-imp _ _ ls (λ k h wk. outranks-neg_trans k m l (h wk) (before-outranks m l b)) best,
          ),
        )
]
  where
    kept : before m l ≡ true → (if before m l then m else l) ≡ m
    kept b = rw b refl

    changed : before m l ≡ false → (if before m l then m else l) ≡ l
    changed b = rw b refl

pub first_waiting-Leads :
    (remote : String) (ls : List Lease) (f : Lease)
    → first_waiting remote ls ≡ some f
    → Leads remote f ls
unfolding first_waiting
first_waiting-Leads remote [] f h = absurd (none_not_some h)
first_waiting-Leads remote (l ∷ ls) f h = elim (Bool-cases (waits_on remote l)) [
  | inr b ↦
      let (w, best) = first_waiting-Leads remote ls f (rw b at h) in (w, (λ h. ground arith, best))
  | inl b ↦ elim (Option-cases (first_waiting remote ls)) [
    | inl e ↦
        subst (λ x. Leads remote x (l ∷ ls)) (some_injective (sym (only e) ∙ rw b at h))
          (
            b,
            (
              λ w. outranks_irrefl l,
              All-imp _ _ ls (λ k idle wk. absurd (true_not_false (sym wk ∙ idle)))
                  (first_waiting-none remote ls e),
            ),
          )
    | inr (m, e) ↦
        subst (λ x. Leads remote x (l ∷ ls)) (some_injective (sym (both m e) ∙ rw b at h))
          (better-Leads remote l m ls b (first_waiting-Leads remote ls m e))
  ]
]
  where
    only : first_waiting remote ls ≡ none → better l (first_waiting remote ls) ≡ some l
    only e = unfold better in rw e refl

    both :
        (m : Lease)
        → first_waiting remote ls ≡ some m
        → better l (first_waiting remote ls) ≡ some (if before m l then m else l)
    both m e = unfold better in rw e refl

pub first_waiting-mem :
    (remote : String) (ls : List Lease) (f : Lease) → first_waiting remote ls ≡ some f → Memᴰ f ls
unfolding first_waiting better
first_waiting-mem remote [] f h = absurd (none_not_some h)
first_waiting-mem remote (l ∷ ls) f h = elim (Bool-cases (waits_on remote l)) [
  | inr b ↦ tail (first_waiting-mem remote ls f (rw b at h))
  | inl b ↦ better-mem l (first_waiting remote ls) f (rw b at h) (first_waiting-mem remote ls)
]
  where
    kept : (l m : Lease) → before m l ≡ true → (if before m l then m else l) ≡ m
    kept l m b = rw b refl

    changed : (l m : Lease) → before m l ≡ false → (if before m l then m else l) ≡ l
    changed l m b = rw b refl

    better-mem :
        (l : Lease) (o : Option Lease) (f : Lease)
        → better l o ≡ some f
        → ((m : Lease) → o ≡ some m → Memᴰ m ls)
        → Memᴰ f (l ∷ ls)
    better-mem l none f e rest = head (sym (some_injective e))
    better-mem l (some m) f e rest = elim (Bool-cases (before m l)) [
      | inl b ↦ tail (rest f (ap some (sym (kept l m b)) ∙ e))
      | inr b ↦ head (sym (some_injective e) ∙ changed l m b)
    ]

-- The claim of a lease is decided by the limit and the order: a claim that succeeds had fewer
-- unexpired running leases on its remote than the limit, and its lease was waiting there with no
-- waiting lease of a higher priority, or of the same priority and created earlier. A claim that
-- fails changes nothing, not even the expired leases.
claim_by_priority :
    (remote id : String) (max_concurrent now : ℕ) (ls : List Lease)
    → let live = delete_where (is_expired now) ls in
      ((try_claim remote id max_concurrent now ls).0 ≡ true
        → (count_where (runs_on remote) live < max_concurrent)
          × ((f : Lease) × (f.id ≡ id) × Leads remote f live))
      × ((try_claim remote id max_concurrent now ls).0 ≡ false
          → (try_claim remote id max_concurrent now ls).1 ≡ ls)
unfolding try_claim
claim_by_priority remote id max_concurrent now ls =
    elim (Bool-cases (leb max_concurrent (count_where (runs_on remote) live))) [
      | inl b ↦ rw b (λ h. absurd (true_not_false (sym h)), λ h. refl)
      | inr b ↦ elim (Option-cases (first_waiting remote live)) [
        | inl e ↦ rw (b, e) (λ h. absurd (true_not_false (sym h)), λ h. refl)
        | inr (f, e) ↦ elim (Bool-cases (str_eq f.id id)) [
          | inl same ↦
              rw (b, e, same)
                (
                  λ h. (
                    ground arith,
                    (f, (eq_iff f.id id).0 same, first_waiting-Leads remote live f e),
                  ),
                  λ h. absurd (true_not_false h),
                )
          | inr other ↦ rw (b, e, other) (λ h. absurd (true_not_false (sym h)), λ h. refl)
        ]
      ]
    ]
  where
    live : List Lease
    live = delete_where (is_expired now) ls
