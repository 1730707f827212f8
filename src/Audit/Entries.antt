-- ===== src/Audit/Entries.antt =====
-- What the log keeps, and what a list of it shows.
use online_colab_document.Base.{
  ℕ, String, List, [], ◌∷◌, ◌++◌, map, Bool, true, false, not, pos_part, ◌≡◌, ◌⊎◌, inl, inr, arith,
  Bool-cases, take, drop, any_where, select_where, order_by, any_where-append, any_where-delete_own,
}
use online_colab_document.Model.Audit.{Log, RecordInput, ListFilter}
use online_colab_document.World.{World, Error, ok, err, called}
use online_colab_document.World.Laws.{Result-cases}
use online_colab_document.Model.User.{User}
use online_colab_document.Uuid.{new_uuid, new_uuid-ReadsOnly}
use online_colab_document.Audit.Repository.{create, passes, limit_of, joined, newest_first, has_id}
use online_colab_document.Audit.Repository
use online_colab_document.Audit.Service.{
  record_action, entry, names_nothing, list, sensitive_entry, sanitize_metadata,
}

-- Some metadata of the row is under a sensitive key.
abbrev pub leaks : Log → Bool
leaks l = any_where sensitive_entry l.metadata

abbrev pub IsClean : World → Type 0
IsClean w = any_where leaks w.db.logs ≡ false

sanitize_metadata-clean :
    (m : List (String × String)) → any_where sensitive_entry (sanitize_metadata m) ≡ false
unfolding sanitize_metadata
sanitize_metadata-clean m = any_where-delete_own sensitive_entry m

create-IsClean : (l : Log) (w : World) → leaks l ≡ false → IsClean w → IsClean (create l w).1
unfolding create any_where
create-IsClean l w kept h = ground (arith, any_where-append leaks w.db.logs (l ∷ []))

module _ (input : RecordInput) (w : World) where
  record_action-created :
      (id : String)
      → names_nothing input ≡ false
      → (new_uuid w).0 ≡ ok id
      → record_action input w
        ≡ create
            (entry input id ((new_uuid w).1.env.time (new_uuid w).1.calls))
            (called (new_uuid w).1)
  unfolding record_action
  record_action-created id e made = ground arith

  record_action-failed :
      (x : Error)
      → names_nothing input ≡ false
      → (new_uuid w).0 ≡ err x
      → (record_action input w).1 ≡ (new_uuid w).1
  unfolding record_action
  record_action-failed x e failed = ground arith

  record_action-dropped : names_nothing input ≡ true → record_action input w ≡ (ok tt, w)
  unfolding record_action
  record_action-dropped e = ground arith

-- Whatever is asked to be recorded, and whether that succeeds or fails, no row of the log has
-- metadata under a sensitive key, if none had.
pub record_action-IsClean :
    (input : RecordInput) (w : World) → IsClean w → IsClean (record_action input w).1
record_action-IsClean input w h = elim (Bool-cases (names_nothing input)) [
  | inl e ↦ rw (record_action-dropped input w e) h
  | inr e ↦ elim (Result-cases (new_uuid w).0) [
    | inl (id, made) ↦
        let t = (new_uuid w).1.env.time (new_uuid w).1.calls in
        rw (record_action-created input w id e made) (
          create-IsClean (entry input id t) (called (new_uuid w).1)
            (sanitize_metadata-clean input.metadata) (rw (new_uuid-ReadsOnly w) h))
    | inr (x, failed) ↦ rw (record_action-failed input w x e failed, new_uuid-ReadsOnly w) h
  ]
]

-- What is recorded is the last row of the log, as it was given but for the sensitive metadata; what
-- names no action or no target leaves everything as it was.
pub record_action_ok :
    (input : RecordInput) (w : World) {w' : World}
    → record_action input w ≡ (ok tt, w')
    → ((names_nothing input ≡ true) × (w' ≡ w))
      ⊎ ((id : String) × (t : ℕ) × (w'.db
            ≡ record w.db { logs = w.db.logs ++ entry input id t ∷ [] })
          × (any_where (has_id id) w.db.logs ≡ false))
unfolding record_action create
record_action_ok input w h = elim (Bool-cases (names_nothing input)) [
  | inl e ↦ inl (e, ground arith)
  | inr e ↦ elim (Result-cases (new_uuid w).0) [
    | inl (id, made) ↦ inr (
      id,
      (new_uuid w).1.env.time (new_uuid w).1.calls,
      ground (arith, new_uuid-ReadsOnly w),
      ground (arith, new_uuid-ReadsOnly w),
    )
    | inr (x, failed) ↦ absurd (ground arith)
  ]
]

pub joined-passes :
    (f : ListFilter) (users : List User) (l : Log)
    → not (passes f (joined users l)) ≡ not (passes f l)
unfolding passes
joined-passes f users l = ground arith

pub list_rows :
    (f : ListFilter) (w : World) {ls : List Log} {w' : World}
    → list f w ≡ (ok ls, w')
    → (ls
        ≡ take (limit_of f.limit) (
            drop (pos_part f.offset) (
              map (joined w.db.users) (order_by newest_first (select_where (passes f) w.db.logs)))))
      × (w'.db ≡ w.db)
unfolding list Repository.list
list_rows f w h = (ground arith, ground arith)
