-- ===== src/Tasking/Service/Listing/Newest.antt =====
-- tasking/application/service.py: the list shows the newest tasks.
use agent_workload_platform.Prelude.{
  ℕ, zero, suc, ◌-◌, ◌≤◌, String, ◌≡◌, refl, ap, inl, inr, Option, List, [], ◌∷◌, ◌++◌, arith, leb,
  Bool-cases, length, take, drop, all, length-take-le, All,
}
use mathlib.Core.List.{Permᴰ}
use mathlib.Core.List.Permᴰ
use agent_workload_platform.Json.{ℤ, pos, negsuc}
use agent_workload_platform.Tasking.TaskView.{TaskView}
use agent_workload_platform.Tasking.Service.Listing.{sliced, insert, newest_first, with_name, shown}

-- Each view was created at the time of all that follow, or later.
abbrev pub IsNewestFirst : List TaskView → Type 0
IsNewestFirst [] = Unit {0}
IsNewestFirst (v ∷ vs) = All (λ u. u.created_at ≤ v.created_at) vs × IsNewestFirst vs

All-insert :
    (n : ℕ) (v : TaskView) (vs : List TaskView)
    → v.created_at ≤ n
    → All (λ u. u.created_at ≤ n) vs
    → All (λ u. u.created_at ≤ n) (insert v vs)
unfolding insert
All-insert n v [] h all = (h, tt)
All-insert n v (u ∷ us) h all = elim (Bool-cases (leb u.created_at v.created_at)) [
  | inl before ↦ simp before (h, all)
  | inr after ↦ simp after (all.0, All-insert n v us h all.1)
]

All-older :
    (m n : ℕ) (vs : List TaskView)
    → m ≤ n
    → All (λ u. u.created_at ≤ m) vs
    → All (λ u. u.created_at ≤ n) vs
All-older m n [] h all = tt
All-older m n (v ∷ vs) h all = (omega (arith, h, all.0), All-older m n vs h all.1)

insert-IsNewestFirst :
    (v : TaskView) (vs : List TaskView) → IsNewestFirst vs → IsNewestFirst (insert v vs)
unfolding insert
insert-IsNewestFirst v [] h = (tt, tt)
insert-IsNewestFirst v (u ∷ us) h = elim (Bool-cases (leb u.created_at v.created_at)) [
  | inl before ↦
      let le : u.created_at ≤ v.created_at = ground (arith, before) in
      simp before ((le, All-older u.created_at v.created_at us le h.0), h)
  | inr after ↦
      simp after
        (All-insert u.created_at v us (ground (arith, after)) h.0, insert-IsNewestFirst v us h.1)
]

newest_first-IsNewestFirst : (vs : List TaskView) → IsNewestFirst (newest_first vs)
unfolding newest_first
newest_first-IsNewestFirst [] = tt
newest_first-IsNewestFirst (v ∷ vs) =
    insert-IsNewestFirst v (newest_first vs) (newest_first-IsNewestFirst vs)

insert-Perm : (v : TaskView) (vs : List TaskView) → Permᴰ (insert v vs) (v ∷ vs)
unfolding insert
insert-Perm v [] = Permᴰ.cons refl Permᴰ.nil
insert-Perm v (u ∷ us) = elim (Bool-cases (leb u.created_at v.created_at)) [
  | inl before ↦ simp before (Permᴰ.refl _)
  | inr after ↦ simp after (Permᴰ.trans (Permᴰ.cons refl (insert-Perm v us)) (Permᴰ.swap refl refl))
]

newest_first-Perm : (vs : List TaskView) → Permᴰ (newest_first vs) vs
unfolding newest_first
newest_first-Perm [] = Permᴰ.nil
newest_first-Perm (v ∷ vs) =
    Permᴰ.trans (insert-Perm v (newest_first vs)) (Permᴰ.cons refl (newest_first-Perm vs))

take-drop {ℓ} : {A : Type ℓ} (n : ℕ) (xs : List A) → take n xs ++ drop n xs ≡ xs
take-drop zero xs = refl
take-drop (suc n) [] = refl
take-drop (suc n) (x ∷ xs) = ap (λ ys. x ∷ ys) (take-drop n xs)

-- What a slice leaves out
abbrev left_out : ℤ → List TaskView → List TaskView
left_out (pos n) views = drop n views
left_out (negsuc n) views = drop (length views - suc n) views

sliced-left_out : (limit : ℤ) (vs : List TaskView) → sliced limit vs ++ left_out limit vs ≡ vs
unfolding sliced
sliced-left_out (pos n) vs = take-drop n vs
sliced-left_out (negsuc n) vs = take-drop (length vs - suc n) vs

-- A limit that is not negative bounds the length.
abbrev pub IsWithin : ℤ → List TaskView → Type 0
IsWithin (pos n) vs = length vs ≤ n
IsWithin (negsuc n) vs = Unit {0}

sliced-IsWithin : (limit : ℤ) (vs : List TaskView) → IsWithin limit (sliced limit vs)
unfolding sliced
sliced-IsWithin (pos n) vs = length-take-le n vs
sliced-IsWithin (negsuc n) vs = tt

-- For any limit, name and views, what `list` shows and some rest are together the views of that
-- name, in another order, and the newest first: nothing that is left out is newer than what is
-- shown. With a limit of `n` at most `n` are shown.
pub shown_newest :
    (limit : ℤ) (name : Option String) (views : List TaskView)
    → (rest : List TaskView) × Permᴰ (shown limit name views ++ rest) (with_name name views)
      × IsNewestFirst (shown limit name views ++ rest)
      × IsWithin limit (shown limit name views)
unfolding shown
shown_newest limit name views =
    let sorted = newest_first (with_name name views) in
    (
      left_out limit sorted,
      rw (sliced-left_out limit sorted) (newest_first-Perm (with_name name views)),
      rw (sliced-left_out limit sorted) (newest_first-IsNewestFirst (with_name name views)),
      sliced-IsWithin limit sorted,
    )
