-- ===== src/Workflow/Requests.antt =====
-- Every request of the workflow controller keeps the invariant of the table of workflows, whether
-- it succeeds or fails, and so does every sequence of requests.
use social_listening_backend.Users.InTab.{check_user_in_tab}
use social_listening_backend.Workflow.Keeps.{update_workflow-keeps, create_workflow-keeps}
use mathlib.Core.Path.{subst}
use social_listening_backend.Workflow.Activation.{activation-Activates, Activates}
use social_listening_backend.Lists.{All}
use social_listening_backend.Reply.Rules.{Runs-or_throw-some, Runs-or_throw-none, Runs-replying}
use social_listening_backend.Workflow.Rules.{
  Runs-get_workflow_by_id, Runs-update_activation, Runs-check_user_in_tab, Runs-allowed_workflow,
}
use social_listening_backend.Reply.{or_throw, result, Reply}
use social_listening_backend.Workflow.Controller.{
  not_allowed, does_not_exist, on_update_workflow, on_create_workflow, on_delete_workflow,
  update_workflow_activation,
}
use social_listening_backend.Workflow.Invariant.{
  deactivated-IsValid, activated-IsValid, edited-IsValid, created-IsValid, removed-IsValid,
  set_active-IsValid, IsValid,
}
use social_listening_backend.Base.{inr, inl, ap, sym, ◌≡◌, false, true, Bool, ℕ, Option, none, some}
use social_listening_backend.Reply.{message}
use social_listening_backend.Schema.{Workflow}
use social_listening_backend.Exec.{err, ok, Result, ◌>>=◌, ◌>>◌}
use social_listening_backend.Exec.Runs.{Runs, Runs-bind, Runs-pure, Runs-mono}
use social_listening_backend.Async.Rules.{Runs-technical}
use social_listening_backend.Store.{workflow_model, Store, Client, tick}
use social_listening_backend.Store.Rules.{Runs-create, Runs-update}
use social_listening_backend.Workflow.Records.{
  delete_workflow, update_workflow, WorkflowDto, save_workflow_data,
}

abbrev Valid : Store → Type 0
Valid t = IsValid t.workflows

Activates-Valid :
    (s : Store) (user id : ℕ)
    → Valid s
    → (r : Reply Bool) (t : Store) → Activates s user id r t
    → Valid t
Activates-Valid s user id v (result b) t (w, (has, named, _, _), e) =
    subst IsValid (sym (ap (λ (u : Store). u.workflows) e))
      (activated-IsValid id w s.workflows has named v)
Activates-Valid s user id v (message why) t (inl e) =
    subst IsValid (sym (ap (λ (u : Store). u.workflows) e)) v
Activates-Valid s user id v (message why) t (inr (w, _, e)) =
    subst IsValid (sym (ap (λ (u : Store). u.workflows) e))
      (deactivated-IsValid w.type s.workflows v)

module _ (prisma : Client) (user : ℕ) (s : Store) (v : Valid s) where
  activate-Valid :
      (id : ℕ) → Runs (λ _ t. Valid t) (λ _ _. ⊥) (update_workflow_activation prisma user id true s)
  activate-Valid id =
      Runs-mono (activation-Activates prisma user id s) (Activates-Valid s user id v) (λ _ _ h. h)

  deactivate-Valid :
      (id : ℕ)
      → Runs (λ _ t. Valid t) (λ _ _. ⊥) (update_workflow_activation prisma user id false s)
  unfolding update_workflow_activation
  deactivate-Valid id = Runs-replying _ s (
      Runs-bind _ _ s (
        Runs-allowed_workflow prisma s user id
          (λ w u _ _ _ _ _. Runs-bind _ _ _ (
            Runs-pure tt _ (
              Runs-bind _ _ _ (
                Runs-update_activation prisma _ id false
                  (λ _ _ _. Runs-pure true _ (set_active-IsValid id s.workflows v)) v))))
          (λ _. v) (λ _. v)))

  delete-Valid : (id : ℕ) → Runs (λ _ t. Valid t) (λ _ _. ⊥) (on_delete_workflow prisma user id s)
  unfolding on_delete_workflow delete_workflow
  delete-Valid id = Runs-replying _ s (
      Runs-bind _ _ s (
        Runs-allowed_workflow prisma s user id
          (λ w u _ _ _ _ _. Runs-bind _ _ _ (
            Runs-technical _ _ (
              Runs-update (workflow_model prisma) _ id _
                (λ _ _ _. Runs-pure true _ (removed-IsValid id s.workflows v)) (λ _. v))))
          (λ _. v) (λ _. v)))

  create-Valid :
      (dto : WorkflowDto) → Runs (λ _ t. Valid t) (λ _ _. ⊥) (on_create_workflow prisma user dto s)
  unfolding on_create_workflow save_workflow_data
  create-Valid dto = Runs-replying _ s (
      Runs-bind _ _ s (
        Runs-check_user_in_tab prisma s user dto.tab_id (Runs-bind _ _ _ (Runs-or_throw-none _ _ v))
          (λ u _ _. Runs-bind _ _ _ (
            Runs-or_throw-some _ _ u (
              create_workflow-keeps prisma IsValid dto _ (
                Runs-technical _ _ (
                  Runs-create (workflow_model prisma) _ _
                    (λ k fresh. created-IsValid dto k s.workflows fresh v) (λ _. v))))))
          (λ _. v)))

  update-Valid :
      (id : ℕ) (dto : WorkflowDto)
      → All (λ w. w.id ≡ id → w.type ≡ dto.type) s.workflows
      → Runs (λ _ t. Valid t) (λ _ _. ⊥) (on_update_workflow prisma user id dto s)
  unfolding on_update_workflow save_workflow_data
  update-Valid id dto same = Runs-replying _ s (
      Runs-bind _ _ s
        (Runs-get_workflow_by_id prisma s id (checked none) (λ w _ _ _. checked (some w)) v))
    where
      edit : Runs (λ _ t. Valid t) (λ _ t. Valid t) (update_workflow prisma id dto (tick (tick s)))
      edit = update_workflow-keeps prisma IsValid id dto _ (
          Runs-technical _ _ (
            Runs-update (workflow_model prisma) _ id _
              (λ _ _ _. edited-IsValid id dto s.workflows same v) (λ _. v)))

      existing :
          (o : Option Workflow)
          → Runs
              (λ _ t. Valid t)
              (λ _ t. Valid t)
              ((or_throw o does_not_exist >> update_workflow prisma id dto) (tick (tick s)))
      existing none = Runs-bind _ _ _ (Runs-or_throw-none _ _ v)
      existing (some w) = Runs-bind _ _ _ (Runs-or_throw-some _ _ w edit)

      checked :
          (o : Option Workflow)
          → Runs
              (λ _ t. Valid t)
              (λ _ t. Valid t)
              ((check_user_in_tab prisma user dto.tab_id >>= λ member.
                  or_throw member not_allowed
                  >> (or_throw o does_not_exist >> update_workflow prisma id dto))
                (tick s))
      checked o = Runs-bind _ _ _ (
          Runs-check_user_in_tab prisma _ user dto.tab_id
            (Runs-bind _ _ _ (Runs-or_throw-none _ _ v))
            (λ u _ _. Runs-bind _ _ _ (Runs-or_throw-some _ _ u (existing o))) (λ _. v))

-- A request of one user to the controller of workflows, between two states.
pub data Step (prisma : Client) (s t : Store) : Type 0 where
  activation :
      (user id : ℕ) (b : Bool)
      → t ≡ (update_workflow_activation prisma user id b s).1
      → Step prisma s t
  removal : (user id : ℕ) → t ≡ (on_delete_workflow prisma user id s).1 → Step prisma s t
  creation :
      (user : ℕ) (dto : WorkflowDto)
      → t ≡ (on_create_workflow prisma user dto s).1
      → Step prisma s t
  edition :
      (user id : ℕ) (dto : WorkflowDto)
      → All (λ w. w.id ≡ id → w.type ≡ dto.type) s.workflows
      → t ≡ (on_update_workflow prisma user id dto s).1
      → Step prisma s t

pub data Reach (prisma : Client) (s : Store) : Store → Type 0 where
  here : Reach prisma s s
  next : {t u : Store} → Reach prisma s t → Step prisma t u → Reach prisma s u

-- The state after a run whose outcomes both keep the invariant.
ends-Valid :
    {A : Type 0} (o : Result (Reply A) × Store) → Runs (λ _ t. Valid t) (λ _ _. ⊥) o → Valid o.1
ends-Valid (ok a, s) r = r.ends
ends-Valid (err e, s) r = absurd r.ends

Step-Valid : (prisma : Client) {s t : Store} → Step prisma s t → Valid s → Valid t
Step-Valid prisma {s} (activation user id true e) v =
    subst Valid (sym e) (ends-Valid _ (activate-Valid prisma user s v id))
Step-Valid prisma {s} (activation user id false e) v =
    subst Valid (sym e) (ends-Valid _ (deactivate-Valid prisma user s v id))
Step-Valid prisma {s} (removal user id e) v =
    subst Valid (sym e) (ends-Valid _ (delete-Valid prisma user s v id))
Step-Valid prisma {s} (creation user dto e) v =
    subst Valid (sym e) (ends-Valid _ (create-Valid prisma user s v dto))
Step-Valid prisma {s} (edition user id dto same e) v =
    subst Valid (sym e) (ends-Valid _ (update-Valid prisma user s v id dto same))

-- From a table without double identifiers in which each type has at most one active workflow, any
-- sequence of requests to create, edit, activate, deactivate and delete workflows leads to such a
-- table, whatever calls of the database fail, if no edit changes the type of a workflow.
pub Reach-IsValid :
    (prisma : Client) {s t : Store} → IsValid s.workflows → Reach prisma s t → IsValid t.workflows
Reach-IsValid prisma v here = v
Reach-IsValid prisma v (next r st) = Step-Valid prisma st (Reach-IsValid prisma v r)
