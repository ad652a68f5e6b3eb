-- ===== src/Workflow/Activation.antt =====
-- What the request to activate or deactivate a workflow does to the table of workflows.
use social_listening_backend.Users.InTab.{is_member}
use social_listening_backend.Base.{
  ℕ, String, ◌≡◌, refl, ap₂, ◌==◌, ◌⊎◌, inl, inr, str_eq, Bool, true, false, List, [], ◌∷◌, map,
  arith, if◌then◌else◌,
}
use social_listening_backend.Lists.{Has, update_where}
use social_listening_backend.Schema.{Workflow, UserInTab}
use social_listening_backend.Exec.Runs.{Runs, Runs-bind, Runs-pure}
use social_listening_backend.Store.{Store, Client}
use social_listening_backend.Workflow.Records.{set_active}
use social_listening_backend.Reply.{Reply, result, message}
use social_listening_backend.Workflow.Controller.{update_workflow_activation}
use social_listening_backend.Reply.Rules.{Runs-replying}
use social_listening_backend.Workflow.Rules.{
  Runs-allowed_workflow, Runs-deactivate_all_workflow, Runs-update_activation,
}

-- What activating a workflow of a type means for each workflow: it alone is active in its type, in
-- whatever tab, and other types are as they were.
abbrev pub activated : ℕ → String → Workflow → Workflow
activated id type w = record w {
  is_active = if w.id == id then true else if str_eq w.type type then false else w.is_active;
}

-- All workflows of a type are inactive.
abbrev pub deactivated : String → Workflow → Workflow
deactivated type w = if str_eq w.type type then set_active false w else w

-- The state with another table of workflows; nothing else changes but the count of calls.
abbrev pub OnlyWorkflows : Store → List Workflow → Store → Type 0
OnlyWorkflows s ws t = t ≡ record s { calls = t.calls; workflows = ws }

-- The request may see the workflow: it exists, and the user is a member of its tab.
abbrev pub MaySee : Store → ℕ → ℕ → Workflow → Type 0
MaySee s user id w =
    Has w s.workflows
    × (w.id ≡ id)
    × (w.deleted ≡ false)
    × ((u : UserInTab) × Has u s.users_in_tab × (is_member user w.tab_id u ≡ true))

-- The outcome of activating: a result only with the check passed and the whole change made; a
-- message with nothing changed, or with the type deactivated and nothing activated.
abbrev pub Activates : Store → ℕ → ℕ → Reply Bool → Store → Type 0
Activates s user id (result b) t =
    (w : Workflow) × MaySee s user id w × OnlyWorkflows s (map (activated id w.type) s.workflows) t
Activates s user id (message e) t =
    OnlyWorkflows s s.workflows t
    ⊎ ((w : Workflow) × MaySee s user id w
        × OnlyWorkflows s (map (deactivated w.type) s.workflows) t)

activated_lem :
    (id : ℕ) (type : String) (w : Workflow)
    → (if (if str_eq w.type type then set_active false w else w).id == id
        then set_active true (if str_eq w.type type then set_active false w else w)
        else (if str_eq w.type type then set_active false w else w))
      ≡ activated id type w
activated_lem id type w = ground arith

map-activated :
    (id : ℕ) (type : String) (ws : List Workflow)
    → update_where
        (λ w. w.id == id)
        (set_active true)
        (update_where (λ w. str_eq w.type type) (set_active false) ws)
      ≡ map (activated id type) ws
map-activated id type [] = refl
map-activated id type (w ∷ ws) = ap₂ ◌∷◌ (activated_lem id type w) (map-activated id type ws)

module _ (prisma : Client) (user id : ℕ) (s : Store) where
  -- Activating a workflow answers with a result only if the workflow exists, is not deleted and the
  -- user is a member of its tab; then it is the one active workflow of its type in every tab, and
  -- nothing else has changed. Any failure is answered with a message and leaves the workflows as
  -- they were, or those of the type all inactive.
  pub activation-Activates :
      Runs (Activates s user id) (λ _ _. ⊥) (update_workflow_activation prisma user id true s)
  unfolding update_workflow_activation
  activation-Activates = Runs-replying _ s (
      Runs-bind _ _ s (
        Runs-allowed_workflow prisma s user id
          (λ w u has named live at member. Runs-bind _ _ _ (
            Runs-deactivate_all_workflow prisma _ w.type
              (Runs-bind _ _ _ (
                Runs-update_activation prisma _ id true
                  (λ v _ _. Runs-pure true _ (
                    w,
                    (has, named, live, (u, at, member)),
                    rw (map-activated id w.type s.workflows) refl,
                  ))
                  (inr (w, (has, named, live, (u, at, member)), refl))))
              (inl refl)))
          (λ e. inl refl) (λ e. inl refl)))
