-- ===== src/Tests/Applied.antt =====
-- The theorems at concrete tables, with the database that never fails.
use social_listening_backend.Tests.Samples.{
  flow, waiting, sample, manager, supporter, assignment, promotion, support, hook_data,
}
use social_listening_backend.Base.{[], false, ◌∷◌, ◌≡◌, refl, true, none, arith}
use social_listening_backend.Int.{pos}
use social_listening_backend.Lists.{find, Has}
use social_listening_backend.Exec.{Result, ok, ◌>>=◌}
use social_listening_backend.Exec.Runs.{Runs}
use social_listening_backend.Async.{technical_issue}
use social_listening_backend.Schema.{UserInHotQueue, UserInTab}
use social_listening_backend.Store.{Store, find_first, update, update_many}
use social_listening_backend.Tests.Reliable.{in_order-Reliable, memory}
use social_listening_backend.Users.InTab.{
  check_user_in_tab, assign_users, unassign_users, update_role_user,
}
use social_listening_backend.Users.InTab.Once.{Once, Extends, assign_users-Once}
use social_listening_backend.Users.InTab.Left.{
  Taken, listed, UniqueMemberships, unassign_users-Taken,
}
use social_listening_backend.Users.InTab.Manager.{
  OneManager, HasRole, both_roles, update_role_user-OneManager,
}
use social_listening_backend.Workflow.HotQueue.{
  waits, in_conversation, closed, find_user_in_hot_queue, stop_hot_queue,
}
use social_listening_backend.Workflow.HotQueue.Stop.{
  Stopped, NotStopped, stop_hot_queue-Stopped, stop_hot_queue-find,
}
use social_listening_backend.Workflow.Hook.{try_call_hook}
use social_listening_backend.Workflow.Hook.Queued.{Unchanged, SenderWaits, try_call_hook-Unchanged}
use social_listening_backend.Reply.{result, or_throw}
use social_listening_backend.Workflow.Controller.{allowed_workflow, update_workflow_activation}
use social_listening_backend.Workflow.Data.{get_workflow_by_id}
use social_listening_backend.Workflow.Records.{deactivate_all_workflow, update_activation}
use social_listening_backend.Workflow.Activation.{Activates, activation-Activates}
use social_listening_backend.Workflow.Invariant.{IsValid}
use social_listening_backend.Workflow.Requests.{Reach, Step, Reach-IsValid}

activation-Activates_example :
    Runs (Activates sample 5 1) (λ _ _. ⊥) (update_workflow_activation memory 5 1 true sample)
activation-Activates_example = activation-Activates memory 5 1 sample

sample-IsValid : IsValid sample.workflows
sample-IsValid = record { ids = λ k. ground arith; active = λ type. ground arith }

activated_sample : Store
activated_sample = (update_workflow_activation memory 5 1 true sample).1

sample-Reach : Reach memory sample activated_sample
unfolding activated_sample
sample-Reach = Reach.next Reach.here (Step.activation 5 1 true refl)

Reach-IsValid_example : IsValid activated_sample.workflows
Reach-IsValid_example = Reach-IsValid memory sample-IsValid sample-Reach

sample-SenderWaits : SenderWaits sample 10 "Message" 30
sample-SenderWaits = ((λ _ h. cc), tt)

try_call_hook-Unchanged_example :
    Runs
      (λ _ t. Unchanged sample t)
      (λ _ t. Unchanged sample t)
      (try_call_hook memory
        (λ _. record { min = pos 0; max = pos 1 })
        10
        "Message"
        "Receive"
        hook_data
        sample)
try_call_hook-Unchanged_example =
    try_call_hook-Unchanged memory 10 "Message" (λ _. record { min = pos 0; max = pos 1 }) "Receive"
      hook_data sample 30 refl sample-SenderWaits

stopped : Result UserInHotQueue × Store
stopped = stop_hot_queue memory support sample

stop_hot_queue-Stopped_example :
    Runs
      (λ _ t.
        (e : UserInHotQueue) × Has e sample.hot_queue
        × (waits 70 10 "Message" e ≡ true)
        × Stopped sample support e t)
      (λ e t. (e ≡ technical_issue) × NotStopped sample support t)
      (stop_hot_queue memory support sample)
stop_hot_queue-Stopped_example = stop_hot_queue-Stopped memory support sample

support_ends : stop_hot_queue memory support sample ≡ (ok (closed waiting), stopped.1)
unfolding stopped stop_hot_queue find_user_in_hot_queue find_first update update_many ◌>>=◌
support_ends = refl

stop_hot_queue-find_example :
    (find (waits 70 10 "Message") stopped.1.hot_queue ≡ none)
    × (find (in_conversation 70 10 "Message") stopped.1.hot_queue_messages ≡ none)
stop_hot_queue-find_example = stop_hot_queue-find memory support sample (ground arith) support_ends

sample-Once : Once sample
sample-Once user tab = ground arith

assign_users-Once_example :
    Runs
      (λ _ t. Once t × Extends sample t)
      (λ _ t. Once t × Extends sample t)
      (assign_users memory assignment sample)
assign_users-Once_example = assign_users-Once memory assignment sample sample-Once

sample-UniqueMemberships : UniqueMemberships sample
sample-UniqueMemberships k = ground arith

unassign_users-Taken_example :
    Runs
      (λ _ t. Taken (listed assignment) sample t)
      (λ _ t. t ≡ record sample { calls = t.calls })
      (unassign_users memory assignment sample)
unassign_users-Taken_example =
    unassign_users-Taken memory (in_order-Reliable UserInTab.id) assignment sample
      sample-UniqueMemberships sample-Once

sample-OneManager : OneManager 1 sample.users_in_tab
sample-OneManager = record { managers = λ tab. ground arith; ids = λ k. ground arith }

update_role_user-OneManager_example :
    Runs
      (λ _ t. OneManager 1 t.users_in_tab × HasRole promotion t.users_in_tab)
      (λ _ t. OneManager 1 t.users_in_tab)
      (update_role_user memory (both_roles manager supporter) promotion sample)
update_role_user-OneManager_example =
    update_role_user-OneManager memory manager supporter (λ e. omega arith) promotion sample
      sample-OneManager

-- The request succeeds, and the workflow of the other tab is no longer active.
activation_run : (update_workflow_activation memory 5 1 true sample) ≡ (
  ok (result true),
  record sample { calls = 4; workflows = flow 1 10 true ∷ flow 2 20 false ∷ [] },
)
unfolding update_workflow_activation allowed_workflow get_workflow_by_id check_user_in_tab or_throw
    deactivate_all_workflow update_activation find_first update update_many ◌>>=◌
activation_run = refl
