-- ===== src/Redis/Consistency.antt =====
-- What the operations of src/flowmesh/storage/redis.py keep of its keys.
use fuzzy_octo_train.Prelude.{
  string_eq, ℕ, String, none, some, get, has, ◌≡◌, ◌==◌, refl, sym, ◌∙◌, subst, arith, get-put,
  has-put, ==_iff, Bool-cases, Option-cases, inl, inr, ◌⊎◌, ok, Option, >>=-eq-ok,
}
use fuzzy_octo_train.Models.{Workflow, WorkflowStatus, workflow_status_value}
use fuzzy_octo_train.Sqlite.Rows.{WorkflowRow, to_row}
use fuzzy_octo_train.Sqlite.Consistency.{IsReadable}
use fuzzy_octo_train.Sqlite.Reads.{some-inj}
use fuzzy_octo_train.Documents.{read_workflow-ok, IsPlain, IsStable, to_row-IsPlain}
use fuzzy_octo_train.Sqlite.Reloaded.{read_back, to_row-cases}
use fuzzy_octo_train.Redis.{Redis, set_row, save, find}

ok-inj : {A : Type 0} {a b : A} → ok a ≡ ok b → a ≡ b
ok-inj e = cc

module _ {V : Type 0} where
  -- A workflow stands under its own id, with a status that can be read, and its texts read as what they
  -- are written from.
  abbrev pub IsEntry : (json : V → Option V) → String → WorkflowRow V → Type 0
  IsEntry json k row = (row.id ≡ k) × IsReadable row × IsPlain json row

  -- The list has the ids of the workflows.
  pub record IsConsistent (json : V → Option V) (s : Redis V) : Type 0 where
    pub entries :
        (k : String) (row : WorkflowRow V) → get s.workflows k ≡ some row → IsEntry json k row
    pub listed : (k : String) → has s.scores k ≡ has s.workflows k

  pub IsConsistent-set_row :
      (json : V → Option V) {s : Redis V}
      → IsConsistent json s
      → (row : WorkflowRow V) → IsReadable row
      → IsPlain json row
      → IsConsistent json (set_row s row)
  unfolding set_row
  IsConsistent-set_row json {s} c new r p = record {
    entries = λ k row e. elim (Bool-cases (new.id == k)) [
      | inl here ↦
          subst (IsEntry json k) {x = new} (some-inj (sym (rw (get-put, here) refl) ∙ e))
            (ground (arith, ==_iff new.id k), r, p)
      | inr other ↦ c.entries k row (sym (rw (get-put, other) refl) ∙ e)
    ];
    listed = λ k.
        rw (has-put s.scores new.id k new.created_at, has-put s.workflows new.id k new, c.listed k)
          refl;
  }

  -- `save` keeps the keys consistent.
  pub IsConsistent-save :
      (json : V → Option V) {s s' : Redis V}
      → IsStable json
      → IsConsistent json s
      → (w : Workflow V) → save json s w ≡ ok s'
      → IsConsistent json s'
  unfolding save
  IsConsistent-save json {s} stable c w e = elim (to_row-cases json w) [
    | inr (failed, bad) ↦ absurd (ground (arith, failed))
    | inl (row, written, r, good) ↦
        let (row', written', last) = >>=-eq-ok (to_row json w) (λ row. ok (set_row s row)) e in
        subst (IsConsistent json) (ok-inj (sym (rw (save, written) refl) ∙ e)) (
          IsConsistent-set_row json c row (w.status, r.status)
            (to_row-IsPlain json stable w row written))
  ]

  -- What `get` finds, on a row or none.
  abbrev pub FindsEntry :
      (json : V → Option V) (now : ℕ) (nothing : V) (fresh : ℕ → String) → Redis V → String → Type 0
  FindsEntry json now nothing fresh s k =
      (row : WorkflowRow V) × (status : WorkflowStatus) × (get s.workflows k ≡ some row)
      × (row.id ≡ k)
      × (row.status ≡ workflow_status_value status)
      × IsPlain json row
      × (find now nothing fresh s k ≡ ok (some (read_back now nothing fresh row status)))

  pub find-none :
      (now : ℕ) (nothing : V) (fresh : ℕ → String) (s : Redis V) (k : String)
      → get s.workflows k ≡ none
      → find now nothing fresh s k ≡ ok none
  unfolding find
  find-none now nothing fresh s k e = rw (find, e) refl

  pub find-some :
      (now : ℕ) (nothing : V) (fresh : ℕ → String) (s : Redis V) (k : String) (row : WorkflowRow V)
      (status : WorkflowStatus)
      → get s.workflows k ≡ some row
      → row.status ≡ workflow_status_value status
      → find now nothing fresh s k ≡ ok (some (read_back now nothing fresh row status))
  unfolding find
  find-some now nothing fresh s k row status e r =
      rw (find, e, read_workflow-ok now nothing fresh row status r) refl

  pub find-cases :
      {json : V → Option V} (now : ℕ) (nothing : V) (fresh : ℕ → String) {s : Redis V}
      → IsConsistent json s
      → (k : String)
      → ((get s.workflows k ≡ none) × (find now nothing fresh s k ≡ ok none))
        ⊎ FindsEntry json now nothing fresh s k
  find-cases {json} now nothing fresh {s} c k = elim (Option-cases (get s.workflows k)) [
    | inl e ↦ inl (e, find-none now nothing fresh s k e)
    | inr (row, e) ↦
        let (own, (status, r), p) = c.entries k row e in
        inr (row, status, e, own, r, p, find-some now nothing fresh s k row status e r)
  ]
