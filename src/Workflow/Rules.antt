-- ===== src/Workflow/Rules.antt =====
-- Rules for the calls that the proofs about workflows pass through.
use social_listening_backend.Reply.Rules.{Runs-or_throw-some, Runs-or_throw-none}
use social_listening_backend.Users.InTab.{is_member, check_user_in_tab}
use social_listening_backend.Base.{
  ℕ, String, ◌≡◌, ◌==◌, str_eq, Bool, true, false, Option, none, some, arith,
}
use social_listening_backend.Lists.{Has, update_where}
use social_listening_backend.Schema.{Workflow, UserInTab}
use social_listening_backend.Exec.{Error}
use social_listening_backend.Exec.Runs.{Runs, Runs-bind, Runs-pure}
use social_listening_backend.Async.{technical_issue}
use social_listening_backend.Async.Rules.{Runs-technical}
use social_listening_backend.Store.{Store, Client, tick, workflow_model, user_in_tab_model}
use social_listening_backend.Store.Rules.{Runs-find_first, Runs-update, Runs-update_many}
use social_listening_backend.Workflow.Data.{get_workflow_by_id}
use social_listening_backend.Workflow.Records.{
  deactivate_all_workflow, update_activation, set_active,
}
use social_listening_backend.Workflow.Controller.{allowed_workflow}

module _ (prisma : Client) {E : Error → Store → Type 0} (s : Store) where
  pub Runs-get_workflow_by_id :
      {Q : Option Workflow → Store → Type 0} (id : ℕ)
      → Q none (tick s)
      → ((w : Workflow) → Has w s.workflows → w.id ≡ id → w.deleted ≡ false → Q (some w) (tick s))
      → E technical_issue (tick s)
      → Runs Q E (get_workflow_by_id prisma id s)
  unfolding get_workflow_by_id
  Runs-get_workflow_by_id id h k f = Runs-technical _ s (
      Runs-find_first (workflow_model prisma) s _ (λ _. h)
        (λ w has p. k w has (ground arith) (ground arith)) (λ e. f))

  pub Runs-check_user_in_tab :
      {Q : Option UserInTab → Store → Type 0} (user tab : ℕ)
      → Q none (tick s)
      → ((u : UserInTab) → Has u s.users_in_tab → is_member user tab u ≡ true → Q (some u) (tick s))
      → ((e : Error) → E e (tick s))
      → Runs Q E (check_user_in_tab prisma user tab s)
  unfolding check_user_in_tab
  Runs-check_user_in_tab user tab h k f =
      Runs-find_first (user_in_tab_model prisma) s _ (λ _. h) k f

  pub Runs-deactivate_all_workflow :
      {Q : Unit {0} → Store → Type 0} (type : String)
      → Q tt (record (tick s) {
        workflows = update_where (λ w. str_eq w.type type) (set_active false) s.workflows;
      })
      → E technical_issue (tick s)
      → Runs Q E (deactivate_all_workflow prisma type s)
  unfolding deactivate_all_workflow
  Runs-deactivate_all_workflow type h f =
      Runs-technical _ s (Runs-update_many (workflow_model prisma) s _ _ h (λ e. f))

  pub Runs-update_activation :
      {Q : Workflow → Store → Type 0} (id : ℕ) (b : Bool)
      → ((w : Workflow)
          → Has w s.workflows
          → w.id ≡ id
          → Q (set_active b w) (record (tick s) {
            workflows = update_where (λ w. w.id == id) (set_active b) s.workflows;
          }))
      → E technical_issue (tick s)
      → Runs Q E (update_activation prisma id b s)
  unfolding update_activation
  Runs-update_activation id b h f =
      Runs-technical _ s (Runs-update (workflow_model prisma) s id _ h (λ e. f))

module _ (prisma : Client) {E : Error → Store → Type 0} (s : Store) where
  pub Runs-allowed_workflow :
      {Q : Workflow → Store → Type 0} (user id : ℕ)
      → ((w : Workflow) (u : UserInTab)
          → Has w s.workflows
          → w.id ≡ id
          → w.deleted ≡ false
          → Has u s.users_in_tab
          → is_member user w.tab_id u ≡ true
          → Q w (tick (tick s)))
      → ((e : Error) → E e (tick s))
      → ((e : Error) → E e (tick (tick s)))
      → Runs Q E (allowed_workflow prisma user id s)
  unfolding allowed_workflow
  Runs-allowed_workflow user id h f g = Runs-bind _ _ s (
      Runs-get_workflow_by_id prisma s id (Runs-bind _ _ (tick s) (Runs-or_throw-none _ _ (f _)))
        (λ w has named live. Runs-bind _ _ (tick s) (
          Runs-or_throw-some _ _ w (
            Runs-bind _ _ (tick s) (
              Runs-check_user_in_tab prisma (tick s) user w.tab_id
                (Runs-bind _ _ (tick (tick s)) (Runs-or_throw-none _ _ (g _)))
                (λ u at member.
                  Runs-bind _ _ (tick (tick s))
                    (Runs-or_throw-some _ _ u (Runs-pure w _ (h w u has named live at member))))
                g))))
        (f _))
