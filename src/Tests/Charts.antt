-- ===== src/Tests/Charts.antt =====
-- The theorems on the dashboard at concrete tables.
use social_listening_backend.Base.{◌*◌, ◌/◌, ◌%◌, ◌≡◌, ◌≤◌, refl, Option, some}
use social_listening_backend.Exec.{Result, pure, ok, ◌>>=◌}
use social_listening_backend.Exec.Runs.{Runs}
use social_listening_backend.Schema.{SocialSender}
use social_listening_backend.Text.{starts_with}
use social_listening_backend.Filtering.{day}
use social_listening_backend.Store.{Store, find_first, count_rows}
use social_listening_backend.Social.Lookups.{
  page_sender, get_social_tab_info, with_network, page_info, find_sender,
}
use social_listening_backend.Dashboard.{
  Chart, Percent, day_chart, hour_chart, Clock, Times, if_sender, percent, count_comment,
  count_message, count_hot_queue, get_line_chart, get_pie_chart,
}
use social_listening_backend.Social.Pages.{OnlyRead, Failed, PageSender}
use social_listening_backend.Dashboard.Charts.{LineChart, get_line_chart-LineChart}
use social_listening_backend.Dashboard.Sums.{charts-percent, comments_in, messages_in}
use social_listening_backend.Tests.Reliable.{memory}
use social_listening_backend.Tests.Samples.{sample}

abbrev clock : Clock
clock = record {
  midnight = λ t. t / day * day;
  iso_day = λ t. t / day;
  hours = λ t. t % day / 3600000;
}

-- The sender of the page 800.
abbrev page_of_shop : SocialSender
page_of_shop = record { id = 80; sender_id = 800 }

abbrev times : Times
times = record { commented_at = λ _. 5; messaged_at = λ _. 7200000; queued_at = λ _. 9 }

get_line_chart-LineChart_example :
    Runs
      (λ chart t.
        OnlyRead sample t
        × ((o : Option SocialSender) × PageSender sample 10 o
            × LineChart clock times 10 3 4 o sample chart))
      (λ e t. Failed sample e t)
      (get_line_chart memory clock times 10 3 4 sample)
get_line_chart-LineChart_example = get_line_chart-LineChart memory clock times 10 3 4 sample

abbrev chart_run : (Store → Result Chart × Store) → Store → Result (Chart × Percent) × Store
chart_run chart =
    chart >>= λ c. percent memory clock times 10 (some page_of_shop) 0 day >>= λ p. pure (c, p)

charts-percent_example :
    Runs
      (λ (chart, p) t.
        OnlyRead sample t
        × (comments_in chart ≡ p.total_comment)
        × (messages_in chart ≡ p.total_message))
      (λ _ t. OnlyRead sample t)
      (chart_run (day_chart memory clock times 10 (some page_of_shop) 0 day) sample)
    × Runs
        (λ (chart, p) t.
          OnlyRead sample t
          × (comments_in chart ≡ p.total_comment)
          × (p.total_message ≤ messages_in chart))
        (λ _ t. OnlyRead sample t)
        (chart_run (hour_chart memory clock times 10 (some page_of_shop) 0 day) sample)
charts-percent_example = charts-percent memory clock times 10 (some page_of_shop) 0 day sample

-- The whole run succeeds.
pie_chart :
    (get_pie_chart memory clock times 10 3 4 sample).0
    ≡ ok (record {
      total_comment = 1;
      total_message = 1;
      hot_queue_comment = 0;
      hot_queue_message = 1;
    })
unfolding get_pie_chart page_sender get_social_tab_info with_network page_info find_sender percent
    if_sender count_comment count_message count_hot_queue count_rows find_first ◌>>=◌ starts_with
pie_chart = refl
