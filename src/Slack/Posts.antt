-- ===== src/Slack/Posts.antt =====
-- internal/exporter/slack.go: the texts of the messages and `sendAlert`, which posts a text to the web
-- hook and drops the outcome. How numbers and dates are printed is a parameter, and a payload is its
-- text before it is encoded.
use koprobe.Prelude.{ℕ, text_eq, Text, codes, ℤ, Option, none, some, List, [], ◌∷◌, ◌++◌, map}
use koprobe.Float.{Double}
use koprobe.Aggregator.{TeamCost}
use koprobe.Baselines.{Policy}
use koprobe.Slack.{Spike, spikes}
use koprobe.Slack.Digest.{TeamLine, WasteLine, WasteSection, Message}

-- `%.2f` and `%.0f` of a number, `%d` of a count, and a day as `Jan 2, 2006`.
pub record Printer (F : Type 0) : Type 0 where
  pub fixed : ℕ → F → Text
  pub decimal : ℕ → Text
  pub day : ℤ → Text

-- One call of the client's `Post`.
pub record Post : Type 0 where
  pub url : Text
  pub content_type : Text
  pub text : Text

unfoldable pub send_alert : Text → Text → Post
send_alert webhook_url text = record {
  url = webhook_url;
  content_type = codes "application/json";
  text = text;
}

-- the lines of a list, one after the other
unfoldable pub all_lines : {A : Type 0} → (A → Text) → List A → Text
all_lines line [] = []
all_lines line (x ∷ xs) = line x ++ all_lines line xs

module _ {F : Type 0} ⦃d : Double F⦄ (p : Printer F) where
  open p use {fixed, decimal, day}

  unfoldable pub spike_text : Spike F → Text
  spike_text s =
      codes "🔴 *Cost Spike Detected*\nTeam: *"
      ++ (s.team
          ++ (codes "*\nCurrent: $"
              ++ (fixed 2 s.current
                  ++ (codes " (↑ "
                      ++ (fixed 0 s.percent
                          ++ (codes "% above baseline)\nBaseline: $"
                              ++ (fixed 2 s.baseline
                                  ++ (codes "\nCheck: /api/v1/costs/by-pod?team=" ++ s.team))))))))

  unfoldable pub team_text : TeamLine F → Text
  team_text t =
      codes "  "
      ++ (t.bar ++ (codes " `" ++ (t.name ++ (codes "` $" ++ (fixed 2 t.cost ++ codes "\n")))))

  unfoldable pub waste_text : WasteLine F → Text
  waste_text w =
      codes "  • `"
      ++ (w.namespace
          ++ (codes "/"
              ++ (w.pod_name
                  ++ (codes "` — "
                      ++ (fixed 0 w.percent
                          ++ (codes "% CPU util, $"
                              ++ (fixed 2 w.wasted ++ codes "/window wasted\n")))))))

  unfoldable pub section_text : Option (WasteSection F) → Text
  unfolding all_lines waste_text
  section_text none = []
  section_text (some w) =
      codes "\n💸 *Wasted Spend:* $"
      ++ (fixed 2 w.total_waste
          ++ (codes " across "
              ++ (decimal w.pod_count ++ (codes " pods\n" ++ all_lines waste_text w.pods))))

  -- `msg`, at an instant
  unfoldable pub digest_text : ℤ → Message F → Text
  unfolding all_lines team_text section_text
  digest_text now m =
      codes "📊 *Koprobe Weekly Cost Report* — "
      ++ (day now
          ++ (codes "\n\n*Total Cluster Cost (last 24h):* $"
              ++ (fixed 2 m.total
                  ++ (codes "\n\n*Top Spenders:*\n"
                      ++ (all_lines team_text m.teams ++ section_text m.waste)))))

  -- `checkAnomalies` as it posts: where `spikes` names an alert, its text goes to the web hook
  unfoldable pub posted : Text → Policy F (TeamCost F) Post
  unfolding spike_text send_alert
  posted webhook_url = record {
    cost_in = spikes.cost_in;
    alerts = λ team baseline cost.
        map (λ s. send_alert webhook_url (spike_text s)) (spikes.alerts team baseline cost);
    next = spikes.next;
  }
