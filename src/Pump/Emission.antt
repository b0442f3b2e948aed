-- ===== src/Pump/Emission.antt =====
-- Emission follows persistence: what the phases A to C and the emission do with everything that a
-- cycle fetched.
use Prim.Native.Nat.{max}
use mathlib.Core.Path.{subst}
use mathlib.Core.List.{append-nil, append_assoc, map-append}
use morpho_research_os.Prelude.{
  ℕ, ◌≡◌, refl, sym, ap, ◌∙◌, false, Bool-cases, arith, inl, inr, List, [], ◌∷◌, ◌++◌, map, Option,
  none, some, String, if◌then◌else◌, leb, ltb, select, take, All, str_eq, str_eq_comm, lookup,
  lookup-insert, eq_iff,
}
use morpho_research_os.Errors.{CoreError}
use morpho_research_os.Env.{Env}
use morpho_research_os.Repositories.Rows.{Distinct}
use morpho_research_os.Repositories.Tables.{Db}
use morpho_research_os.Repositories.Tasks.{task_key}
use morpho_research_os.Recovery.{ResearchEvent}
use morpho_research_os.Worker.Jobs.{
  Supervisor, acknowledged_cursor, acknowledge_events, note_projection_success,
  note_projection_failure, mark_results_pending,
}
use morpho_research_os.Pump.{
  Fetched, Outcome, project_batch, project_each, acknowledge_each, account_each, mark_jobs,
  mark_each, account, emitted_of, emit_each,
}
use morpho_research_os.Pump.Batch.{
  Ascending, IsAppended, logged_as, sent_as, project_batch-IsPrefix, job_of_batch,
}

-- The greatest number acknowledged for the job, from the cursor on.
abbrev tops : String → List Outcome → ℕ → ℕ
tops id [] c = c
tops id (o ∷ os) c = tops id os (if str_eq o.job_id id then max c o.acknowledged else c)

tops_other :
    (id : String) (os : List Outcome) (c : ℕ)
    → All (λ o. str_eq o.job_id id ≡ false) os
    → tops id os c ≡ c
tops_other id [] c h = refl
tops_other id (o ∷ os) c h = rw h.0 (tops_other id os c h.1)

module _ {World Transport : Type 0} where
  abbrev acknowledge_one : Outcome → Supervisor World Transport → Supervisor World Transport
  acknowledge_one o s =
      if ltb 0 o.acknowledged
      then note_projection_success o.job_id (acknowledge_events o.job_id o.acknowledged s)
      else s

  cursor-acknowledge :
      (id j : String) (n : ℕ) (s : Supervisor World Transport)
      → acknowledged_cursor id (acknowledge_events j n s)
        ≡ (if str_eq j id then max (acknowledged_cursor id s) n else acknowledged_cursor id s)
  unfolding acknowledged_cursor acknowledge_events
  cursor-acknowledge id j n s =
      let last = acknowledged_cursor j s in
      let entered = lookup-insert j id (if ltb last n then n else last) s.event_cursors in
      ground (arith, entered, eq_iff j id)

  cursor_one :
      (id : String) (o : Outcome) (s : Supervisor World Transport)
      → acknowledged_cursor id (acknowledge_one o s) ≡ (
          if str_eq o.job_id id
          then max (acknowledged_cursor id s) o.acknowledged
          else acknowledged_cursor id s)
  cursor_one id o s = elim (Bool-cases (ltb 0 o.acknowledged)) [
    | inl e ↦ rw e (
        let noted : acknowledged_cursor id
              (note_projection_success o.job_id (acknowledge_events o.job_id o.acknowledged s))
            ≡ acknowledged_cursor id (acknowledge_events o.job_id o.acknowledged s) =
          unfold note_projection_success acknowledged_cursor in refl in
        noted ∙ cursor-acknowledge id o.job_id o.acknowledged s)
    | inr e ↦ rw e (ground arith)
  ]

  cursor_all :
      (id : String) (os : List Outcome) (s : Supervisor World Transport)
      → acknowledged_cursor id (acknowledge_each os s) ≡ tops id os (acknowledged_cursor id s)
  unfolding acknowledge_each
  cursor_all id [] s = refl
  cursor_all id (o ∷ os) s =
      cursor_all id os (acknowledge_one o s) ∙ ap (tops id os) (cursor_one id o s)

  cursors_noted :
      (id : String) (s : Supervisor World Transport)
      → (note_projection_failure id s).1.event_cursors ≡ s.event_cursors
  unfolding note_projection_failure
  cursors_noted id s = ground arith

  failed_cursors :
      (o : Outcome) (s : Supervisor World Transport) (f : Option CoreError)
      → (elim f as (λ _. Supervisor World Transport) [
        | none ↦ s
        | some e ↦ (note_projection_failure o.job_id s).1
      ]).event_cursors
        ≡ s.event_cursors
  failed_cursors o s none = refl
  failed_cursors o s (some e) = cursors_noted o.job_id s

  cursors_accounted :
      (os : List Outcome) (s : Supervisor World Transport)
      → (account_each os s).event_cursors ≡ s.event_cursors
  unfolding account_each
  cursors_accounted [] s = refl
  cursors_accounted (o ∷ os) s =
      let next : Option CoreError → Supervisor World Transport =
        λ f. elim f [ none ↦ s | some e ↦ (note_projection_failure o.job_id s).1 ] in
      cursors_accounted os (next o.failed) ∙ failed_cursors o s o.failed

  cursors_marked_jobs :
      (ids : List String) (s : Supervisor World Transport)
      → (mark_jobs ids s).event_cursors ≡ s.event_cursors
  unfolding mark_results_pending
  cursors_marked_jobs [] s = refl
  cursors_marked_jobs (id ∷ ids) s = cursors_marked_jobs ids (mark_results_pending id s)

  cursors_marked :
      (os : List Outcome) (s : Supervisor World Transport)
      → (mark_each os s).event_cursors ≡ s.event_cursors
  unfolding mark_each
  cursors_marked [] s = refl
  cursors_marked (o ∷ os) s =
      cursors_marked os (mark_jobs o.terminal_jobs s) ∙ cursors_marked_jobs o.terminal_jobs s

  -- The cursors after phase C.
  cursor-account :
      (id : String) (os : List Outcome) (s : Supervisor World Transport)
      → acknowledged_cursor id (account os s) ≡ tops id os (acknowledged_cursor id s)
  unfolding account acknowledged_cursor
  cursor-account id os s =
      let kept =
        cursors_marked os (account_each os (acknowledge_each os s))
        ∙ cursors_accounted os (acknowledge_each os s) in
      ap {B = ℕ} (λ m. elim (lookup id m) [ none ↦ 0 | some n ↦ n ]) kept ∙ cursor_all id os s

module _ ⦃env : Env⦄ where
  open env use {Value}

  -- Each job's cursor is in the end the greater of what it was and what its batch acknowledged.
  abbrev Settles : (String → ℕ) → (String → ℕ) → List (Fetched Value) → Db → Type 0
  Settles old new [] db = Unit
  Settles old new (job ∷ jobs) db =
      let done = project_batch job.job_id 0 job.events db in
      (new job.job_id ≡ max (old job.job_id) done.0.acknowledged) × Settles old new jobs done.1

  abbrev selected : (String → ℕ) → List (Fetched Value) → List (ResearchEvent Value)
  selected new [] = []
  selected new (job ∷ jobs) =
      select (λ e. leb e.sequence (new job.job_id)) job.events ++ selected new jobs

  IsAppended-append :
      (db db₁ db₂ : Db) (es fs : List (ResearchEvent Value))
      → IsAppended db db₁ es
      → IsAppended db₁ db₂ fs
      → IsAppended db db₂ (es ++ fs)
  IsAppended-append db db₁ db₂ es fs (rows, h, k) (more, h', k') =
      let appended : map logged_as rows ++ map logged_as more ≡ map sent_as es ++ map sent_as fs =
        rw (k, k') refl in
      (
        rows ++ more,
        h' ∙ ap (λ log. log ++ more) h ∙ append_assoc db.events rows more,
        map-append logged_as rows more ∙ appended ∙ sym (map-append sent_as es fs),
      )

  settled-IsAppended :
      (old new : String → ℕ) (jobs : List (Fetched Value)) (db : Db)
      → Settles old new jobs db
      → All (λ (job : Fetched Value). Ascending (old job.job_id) job.events) jobs
      → Distinct task_key db.tasks
      → IsAppended db (project_each jobs db).1 (selected new jobs)
  unfolding project_each
  settled-IsAppended old new [] db h k d = ([], sym (append-nil db.events), refl)
  settled-IsAppended old new (job ∷ jobs) db h k d =
      let done = project_batch job.job_id 0 job.events db in
      let (first, _) =
        project_batch-IsPrefix job.job_id 0 (old job.job_id) job.events db (omega arith) k.0 d in
      let picked : select (λ e. leb e.sequence (new job.job_id)) job.events
          ≡ take first.count job.events =
        subst (λ m. select (λ e. leb e.sequence m) job.events ≡ take first.count job.events)
          (sym h.0) first.covered in
      IsAppended-append db done.1 (project_each jobs done.1).1 _ _
        (subst (IsAppended db done.1) (sym picked) first.persisted)
        (settled-IsAppended old new jobs done.1 h.1 k.1 first.distinct)

  jobs_of_outcomes :
      (id : String) (jobs : List (Fetched Value)) (db : Db)
      → All (λ (job : Fetched Value). str_eq id job.job_id ≡ false) jobs
      → All (λ o. str_eq o.job_id id ≡ false) (project_each jobs db).0
  unfolding project_each
  jobs_of_outcomes id [] db h = tt
  jobs_of_outcomes id (job ∷ jobs) db h =
      let done = project_batch job.job_id 0 job.events db in
      let named = job_of_batch job.job_id 0 job.events db in
      let other : str_eq done.0.job_id id ≡ false = rw named (str_eq_comm job.job_id id ∙ h.0) in
      (other, jobs_of_outcomes id jobs done.1 h.1)

  -- A job that is not the first has no part in the first outcome.
  skip_first :
      (new old : String → ℕ) (o : Outcome) (os : List Outcome) (jobs : List (Fetched Value))
      → All (λ (job : Fetched Value). str_eq o.job_id job.job_id ≡ false) jobs
      → All
          (λ (job : Fetched Value). new job.job_id ≡ tops job.job_id (o ∷ os) (old job.job_id))
          jobs
      → All (λ (job : Fetched Value). new job.job_id ≡ tops job.job_id os (old job.job_id)) jobs
  skip_first new old o os [] h k = tt
  skip_first new old o os (job ∷ jobs) h k =
      let same : (if str_eq o.job_id job.job_id
            then max (old job.job_id) o.acknowledged
            else old job.job_id)
          ≡ old job.job_id =
        rw h.0 refl in
      (k.0 ∙ ap (tops job.job_id os) same, skip_first new old o os jobs h.1 k.1)

  Settles-tops :
      (old new : String → ℕ) (jobs : List (Fetched Value)) (db : Db)
      → Distinct Fetched.job_id jobs
      → All
          (λ (job : Fetched Value).
            new job.job_id ≡ tops job.job_id (project_each jobs db).0 (old job.job_id))
          jobs
      → Settles old new jobs db
  unfolding project_each
  Settles-tops old new [] db d h = tt
  Settles-tops old new (job ∷ jobs) db d h =
      let done = project_batch job.job_id 0 job.events db in
      let rest = project_each jobs done.1 in
      let id = job.job_id in
      let named = job_of_batch id 0 job.events db in
      let mine : (if str_eq done.0.job_id id then max (old id) done.0.acknowledged else old id)
          ≡ max (old id) done.0.acknowledged =
        ground (arith, named, eq_iff done.0.job_id id) in
      let top =
        ap (tops id rest.0) mine
        ∙ tops_other id rest.0 (max (old id) done.0.acknowledged)
            (jobs_of_outcomes id jobs done.1 d.0) in
      let others : All (λ (job' : Fetched Value). str_eq done.0.job_id job'.job_id ≡ false) jobs =
        rw named d.0 in
      (
        h.0 ∙ top,
        Settles-tops old new jobs done.1 d.1 (skip_first new old done.0 rest.0 jobs others h.1),
      )

  All-trivial : {A : Type 0} (P : A → Type 0) (xs : List A) → ((x : A) → P x) → All P xs
  All-trivial P [] h = tt
  All-trivial P (x ∷ xs) h = (h x, All-trivial P xs h)

  emit_selected :
      {World Transport : Type 0} (jobs : List (Fetched Value)) (s : Supervisor World Transport)
      → emit_each jobs s ≡ selected (λ id. acknowledged_cursor id s) jobs
  unfolding emit_each emitted_of
  emit_selected [] s = refl
  emit_selected (job ∷ jobs) s = ap (λ es. emitted_of job s ++ es) (emit_selected jobs s)

  -- In a cycle the events that are emitted from what was fetched are exactly the ones that were
  -- persisted: the event log gains one row for each emitted event, in their order, with its run and its
  -- type, and no other row. The fetched jobs are different ones, the numbers of each job's events
  -- ascend from its cursor, and the ids of the stored tasks are distinct.
  pub emit_each-IsAppended :
      {World Transport : Type 0} (jobs : List (Fetched Value)) (s : Supervisor World Transport)
      (db : Db)
      → Distinct Fetched.job_id jobs
      → All (λ (job : Fetched Value). Ascending (acknowledged_cursor job.job_id s) job.events) jobs
      → Distinct task_key db.tasks
      → IsAppended db (project_each jobs db).1 (emit_each jobs (account (project_each jobs db).0 s))
  emit_each-IsAppended jobs s db d h t =
      let os = (project_each jobs db).0 in
      let old = λ (id : String). acknowledged_cursor id s in
      let new = λ (id : String). acknowledged_cursor id (account os s) in
      let agree =
        All-trivial (λ (job : Fetched Value). new job.job_id ≡ tops job.job_id os (old job.job_id))
          jobs (λ job. cursor-account job.job_id os s) in
      subst (IsAppended db (project_each jobs db).1) (sym (emit_selected jobs (account os s)))
        (settled-IsAppended old new jobs db (Settles-tops old new jobs db d agree) h t)
