-- ===== src/Collab/Recovery.antt =====
-- What the stored snapshots and updates of a document say its content is, and that an update adds
-- exactly itself to that.
use online_colab_document.Base.{
  ℕ, ◌≤◌, ◌<◌, String, List, [], ◌∷◌, ◌++◌, Bool, true, ltb, ◌==◌, ◌≡◌, refl, arith, ==_iff,
  select_where, order_by, insert_by, ap, ◌∙◌, Bool-cases, inl, inr,
}
use mathlib.Core.Path.{fun_ext}
use online_colab_document.Model.Collab.{Snapshot, Update}
use online_colab_document.World.{Result, ok, err}
use online_colab_document.Collab.Repository.{is_of_document, comes_after, first_snapshot}
use online_colab_document.Collab.Service.{replay, applied, decoded, and_then}

abbrev pub earlier : Update → Update → Bool
earlier u v = ltb u.update_seq v.update_seq

abbrev pub newer : Snapshot → Snapshot → Bool
newer s t = ltb t.version_no s.version_no

-- Every update of the document has a number up to `n`.
abbrev pub UpdatesTo : String → ℕ → List Update → Type 0
UpdatesTo d n [] = Unit
UpdatesTo d n (u ∷ us) = ((u.document_id == d) ≡ true → u.update_seq ≤ n) × UpdatesTo d n us

abbrev pub SnapshotsTo : String → ℕ → List Snapshot → Type 0
SnapshotsTo d n [] = Unit
SnapshotsTo d n (s ∷ ss) = ((s.document_id == d) ≡ true → s.version_no ≤ n) × SnapshotsTo d n ss

insert-last :
    (n x : Update) (ys : List Update)
    → x.update_seq < n.update_seq
    → insert_by earlier x (ys ++ n ∷ []) ≡ insert_by earlier x ys ++ n ∷ []
unfolding insert_by
insert-last n x [] h = ground arith
insert-last n x (y ∷ ys) h = ground (arith, insert-last n x ys h)

-- The updates that a reader gets, one with a greater number added: it comes last.
pub updates-append :
    (d : String) (after m : ℕ) (n : Update) (us : List Update)
    → UpdatesTo d m us
    → n.document_id ≡ d
    → m < n.update_seq
    → after < n.update_seq
    → order_by earlier (select_where (comes_after d after) (us ++ n ∷ []))
      ≡ order_by earlier (select_where (comes_after d after) us) ++ n ∷ []
unfolding order_by select_where insert_by
updates-append d after m n [] h same lt a = ground (arith, ==_iff n.document_id d)
updates-append d after m n (u ∷ us) (h, hs) same lt a = ground (
  arith,
  ==_iff u.document_id d,
  updates-append d after m n us hs same lt a,
  insert-last n u (order_by earlier (select_where (comes_after d after) us)),
)

-- No update is left to a reader who has them all.
pub updates-none :
    (d : String) (n : ℕ) (us : List Update)
    → UpdatesTo d n us
    → order_by earlier (select_where (comes_after d n) us) ≡ []
unfolding order_by select_where
updates-none d n [] h = refl
updates-none d n (u ∷ us) (h, hs) = ground (arith, updates-none d n us hs)

and_then_assoc :
    {A B C : Type 0} (r : Result A) (f : A → Result B) (g : B → Result C)
    → and_then r (λ a. and_then (f a) g) ≡ and_then (and_then r f) g
and_then_assoc (ok a) f g = refl
and_then_assoc (err e) f g = refl

pub replay-append :
    (state : String × ℕ) (us : List Update) (n : Update)
    → replay state (us ++ n ∷ []) ≡ and_then (replay state us) (λ s. replay s (n ∷ []))
unfolding replay
replay-append state [] n = refl
replay-append state (u ∷ us) n =
    ap (and_then (decoded u.update_data))
      (fun_ext (λ p. replay-append (applied p u.update_seq state) us n))
    ∙ and_then_assoc (decoded u.update_data) (λ p. replay (applied p u.update_seq state) us)
        (λ s. replay s (n ∷ []))

first_inserted :
    (s x : Snapshot) (ys : List Snapshot)
    → x.version_no < s.version_no
    → first_snapshot ys ≡ ok s
    → first_snapshot (insert_by newer x ys) ≡ ok s
unfolding insert_by
first_inserted s x [] h k = cc
first_inserted s x (y ∷ ys) h k = ground arith

-- The latest snapshot, one with a greater number added: it is that one.
pub latest-append :
    (d : String) (m : ℕ) (s : Snapshot) (ss : List Snapshot)
    → SnapshotsTo d m ss
    → s.document_id ≡ d
    → m < s.version_no
    → first_snapshot (order_by newer (select_where (is_of_document d) (ss ++ s ∷ []))) ≡ ok s
unfolding order_by select_where insert_by
latest-append d m s [] h same lt = ground (arith, ==_iff s.document_id d)
latest-append d m s (x ∷ xs) (h, hs) same lt = ground (
  arith,
  latest-append d m s xs hs same lt,
  first_inserted s x (order_by newer (select_where (is_of_document d) (xs ++ s ∷ []))),
)

bound_inserted :
    (m : ℕ) (x : Snapshot) (ys : List Snapshot) {s : Snapshot}
    → x.version_no ≤ m
    → ((t : Snapshot) → first_snapshot ys ≡ ok t → t.version_no ≤ m)
    → first_snapshot (insert_by newer x ys) ≡ ok s
    → s.version_no ≤ m
unfolding insert_by
bound_inserted m x [] hx hy h = ground arith
bound_inserted m x (y ∷ ys) hx hy h = ground (arith, hy y)

pub latest-bound :
    (d : String) (m : ℕ) (ss : List Snapshot)
    → SnapshotsTo d m ss
    → (s : Snapshot) → first_snapshot (order_by newer (select_where (is_of_document d) ss)) ≡ ok s
    → s.version_no ≤ m
unfolding order_by select_where
latest-bound d m [] h s k = cc
latest-bound d m (x ∷ xs) (h, hs) s k = elim (Bool-cases (x.document_id == d)) [
  | inl e ↦
      bound_inserted m x (order_by newer (select_where (is_of_document d) xs)) (h e)
        (latest-bound d m xs hs) (rw e at k)
  | inr e ↦ latest-bound d m xs hs s (rw e at k)
]
