-- ===== src/Pod/Poll/Tests.antt =====
-- Polls of the fixtures' widget, whose upstream fails.
use kubepage_operator.Prelude.{true, some, [], ◌≡◌, refl}
use kubepage_operator.Pod.Store
use kubepage_operator.Pod.Store.{Card}
use kubepage_operator.Pod.Monitor.{MonitorProbeResult}
use kubepage_operator.Pod.Schedule.{due_poll}
use kubepage_operator.Pod.Poll.{check_due, poll_widget}
use kubepage_operator.Pod.Poll.Cards.{frame, hidden_error, entry_frame, poll_widget-due}
use kubepage_operator.Fixtures.{media_entry, sonarr, home, polling, start}

abbrev probed : MonitorProbeResult
probed = record {
  status = "Up";
  status_style = "dot";
  latency = "3ms";
  pod_status = "";
  pod_ready_text = "";
  base_url = "https://sonarr.example";
  err = "";
}

poll_widget-due_example :
    (c : Card) × ((poll_widget polling "k" "apps" media_entry
        (some sonarr)
        probed
        true
        home.widget_defaults
        1
        1
        1
        start).store
      ≡ Store.set c [])
    × (frame c ≡ entry_frame polling "k" media_entry true probed 1)
    × (hidden_error c ≡ "")
unfolding check_due due_poll
poll_widget-due_example =
    poll_widget-due polling "k" "apps" media_entry (some sonarr) probed true home.widget_defaults 1
      1 1 start refl
