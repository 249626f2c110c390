-- ===== src/Routes/Tracking.antt =====
-- Which background tasks `_running_workflows` of src/flowmesh/api/routes.py has entries for.
use fuzzy_octo_train.Prelude.{
  string_eq, nat_eq, ℕ, suc, ◌<◌, String, Bool, true, false, some, [], ◌∷◌, Dict, get, put, pop,
  has, ◌≡◌, ◌==◌, refl, ◌∙◌, arith, Bool-cases, inl, inr, if◌then◌else◌, length, ==_iff, ==_refl,
  get-put, has-put, get-pop, get-has,
}
use fuzzy_octo_train.Routes.{Stage, created, finished}

abbrev pub is_live : {V : Type 0} → Stage V → Bool
is_live finished = false
is_live _ = true

-- Handles are numbered, an entry is that of a task of its workflow, and a task that has not finished
-- has the entry of its workflow.
pub record IsTracked {V : Type 0} (running : Dict String ℕ) (tasks : Dict ℕ (String × Stage V))
    : Type 0 where
  pub numbered : (h : ℕ) → has tasks h ≡ true → h < length tasks
  pub registered :
      (id : String) (h : ℕ)
      → get running id ≡ some h
      → (stage : Stage V) × (get tasks h ≡ some (id, stage))
  pub tracked :
      (id : String) (h : ℕ) (stage : Stage V)
      → get tasks h ≡ some (id, stage)
      → is_live stage ≡ true
      → get running id ≡ some h

pub length-put :
    {A : Type 0} (d : Dict ℕ A) (k : ℕ) (a : A)
    → length (put d k a) ≡ (if has d k then length d else suc (length d))
length-put [] k a = refl
length-put ((j, b) ∷ d) k a = ground (arith, length-put d k a)

module _ {V : Type 0} {running : Dict String ℕ} {tasks : Dict ℕ (String × Stage V)}
    (t : IsTracked running tasks) where
  -- a task for a workflow that has no entry
  pub IsTracked-register :
      (id : String)
      → has running id ≡ false
      → IsTracked (put running id (length tasks)) (put tasks (length tasks) (id, created))
  IsTracked-register id new = record {
    numbered = λ h there. ground (
      arith,
      length-put tasks (length tasks) (id, created),
      has-put tasks (length tasks) h (id, created),
      t.numbered h,
      t.numbered (length tasks),
    );
    registered = λ id' h e. elim (Bool-cases (id == id')) [
      | inl here ↦ (
        created,
        ground (
          arith,
          get-put running id id' (length tasks),
          get-put tasks (length tasks) h (id, created),
          ==_iff id id',
          ==_refl h,
        ),
      )
      | inr other ↦
          let (st, f) =
            t.registered id' h (ground (arith, get-put running id id' (length tasks))) in
          (
            st,
            ground (
              arith,
              get-put tasks (length tasks) h (id, created),
              t.numbered h (get-has tasks h (id', st) f),
              ==_iff (length tasks) h,
            ),
          )
    ];
    tracked = λ id' h stage e live. elim (Bool-cases (length tasks == h)) [
      | inl here ↦ ground (
        arith,
        get-put tasks (length tasks) h (id, created),
        get-put running id id' (length tasks),
        ==_iff (length tasks) h,
        ==_refl id',
      )
      | inr other ↦
          let found =
            t.tracked id' h stage (ground (arith, get-put tasks (length tasks) h (id, created)))
              live in
          ground (
            arith,
            get-put running id id' (length tasks),
            get-has running id' h found,
            ==_iff id id',
          )
    ];
  }

  -- a task of the same workflow in another stage, and no task that had finished starts again
  pub IsTracked-stage :
      (h : ℕ) (id : String) (stage stage' : Stage V)
      → get tasks h ≡ some (id, stage)
      → (is_live stage' ≡ true → is_live stage ≡ true)
      → IsTracked running (put tasks h (id, stage'))
  IsTracked-stage h id stage stage' e keeps = record {
    numbered = λ k there. ground (
      arith,
      length-put tasks h (id, stage'),
      has-put tasks h k (id, stage'),
      t.numbered k,
      t.numbered h,
      get-has tasks h (id, stage) e,
      ==_iff h k,
    );
    registered = λ id' k f.
        let (st, g) = t.registered id' k f in
        elim (Bool-cases (h == k)) [
          | inl here ↦ (stage', ground (arith, get-put tasks h k (id, stage'), ==_iff h k))
          | inr other ↦ (st, ground (arith, get-put tasks h k (id, stage')))
        ];
    tracked = λ id' k st f live. elim (Bool-cases (h == k)) [
      | inl here ↦
          ground (arith, get-put tasks h k (id, stage'), t.tracked id h stage e, ==_iff h k)
      | inr other ↦ t.tracked id' k st (ground (arith, get-put tasks h k (id, stage'))) live
    ];
  }

  pub IsTracked-pop :
      (id : String)
      → ((h : ℕ) (stage : Stage V) → get tasks h ≡ some (id, stage) → is_live stage ≡ false)
      → IsTracked (pop running id) tasks
  IsTracked-pop id over = record {
    numbered = t.numbered;
    registered = λ id' h e. t.registered id' h (ground (arith, get-pop running id id'));
    tracked = λ id' h stage e live.
        get-pop running id id'
        ∙ ground (arith, t.tracked id' h stage e live, over h stage, ==_iff id id');
  }
