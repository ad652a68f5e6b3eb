-- ===== src/Tests/Queues.antt =====
-- The theorems on kept messages and on ranges of sentiments at concrete values.
use social_listening_backend.Base.{String, ◌⊎◌, none, some, List, [], ◌∷◌}
use social_listening_backend.Int.{pos}
use social_listening_backend.Exec.Runs.{Runs}
use social_listening_backend.Schema.{SocialSender}
use social_listening_backend.Social.Pages.{OnlyRead, Failed, PageSender}
use social_listening_backend.Workflow.HotQueue.{HotQueueMessageDto, check_then_save_message}
use social_listening_backend.Workflow.HotQueue.Save.{
  Waits, NobodyWaits, Saved, check_then_save_message-Saved,
}
use social_listening_backend.Workflow.Call.{Range, get_sentiment_type}
use social_listening_backend.Workflow.Call.Sentiment.{LastIn, get_sentiment_type_lem}
use social_listening_backend.Tests.Reliable.{memory}
use social_listening_backend.Workflow.Graph.{find_next_workflow_node}
use social_listening_backend.Workflow.Graph.Next.{Next, find_next_workflow_node-Next}
use social_listening_backend.Tests.Samples.{sample}

-- A message of the page's sender 80 to 70, who waits.
abbrev answer : HotQueueMessageDto
answer = record {
  tab_id = 10;
  message = "Hello";
  message_type = "Message";
  sender_id = 80;
  recipient_id = 70;
  message_id = none;
}

check_then_save_message-Saved_example :
    Runs
      (λ _ t.
        (page : SocialSender) × PageSender sample 10 (some page)
        × ((Waits sample answer page × Saved sample answer t)
            ⊎ (NobodyWaits sample answer page × OnlyRead sample t)))
      (λ e t. Failed sample e t)
      (check_then_save_message memory answer sample)
check_then_save_message-Saved_example = check_then_save_message-Saved memory answer sample

abbrev ranges : List (String × Range)
ranges =
    ("bad", record { min = pos 0; max = pos 3 })
    ∷ ("good", record { min = pos 3; max = pos 6 })
    ∷ []

get_sentiment_type_example : LastIn ranges (pos 3) (get_sentiment_type ranges (pos 3) none)
get_sentiment_type_example = get_sentiment_type_lem ranges (pos 3)

find_next_workflow_node-Next_example :
    Runs
      (λ o t. OnlyRead sample t × Next sample 1 3 (some "ok") o)
      (λ e t. Failed sample e t)
      (find_next_workflow_node memory 1 3 (some "ok") sample)
find_next_workflow_node-Next_example = find_next_workflow_node-Next memory 1 3 (some "ok") sample
