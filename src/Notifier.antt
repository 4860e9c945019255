-- ===== src/Notifier.antt =====
-- internal/notifier: console.go, webhook.go and the alert data of notifier.go. What a notifier
-- writes, asks of the network and reports is its result.
pub mod Alerts
use stream_rail.Common.{
  ℕ, ◌+◌, ◌*◌, ◌/◌, ◌%◌, Bool, true, false, not, Option, none, some, List, [], ◌∷◌, ◌++◌, Str,
  codes, leb, ◌==◌, list_eq, nat_eq, if◌then◌else◌,
}
use stream_rail.Common.Int.{ℤ, floor_mod}
use stream_rail.Common.Decimal.{format_int}
use stream_rail.Clock.{Instant, nanos}
use stream_rail.Rule.{Floats, Rule, Having, satisfied, symbol, join}
use stream_rail.Window.{Result, ok, err}
use stream_rail.Aggregator.{Aggregate}

-- t.Format("15:04"), in UTC.
two_digits : ℕ → Str
two_digits n = (b'0' + n / 10 % 10) ∷ (b'0' + n % 10) ∷ []

unfoldable pub format_clock : Instant → Str
unfolding two_digits
format_clock t =
    let minutes = floor_mod t (86_400 * nanos) / (60 * nanos) in
    two_digits (minutes / 60) ++ (codes ":" ++ two_digits (minutes % 60))

pub record AlertData (F : Type 0) : Type 0 where
  pub rule_name : Str
  pub group_key : Str
  pub agg_func : Str
  pub value : F
  pub threshold : F
  pub op : Str
  pub window_start : Instant
  pub window_end : Instant
  pub corrected : Bool

-- newAlertData
unfoldable pub alert_data : {F : Type 0} → Rule F → Aggregate F → AlertData F
alert_data r res = record {
  rule_name = r.name;
  group_key = res.key.group_key;
  agg_func = r.agg_func;
  value = res.value;
  threshold = r.having.value;
  op = symbol r.having;
  window_start = res.key.window_start;
  window_end = res.window_end;
  corrected = res.corrected;
}

-- A parsed template, and what net/http does with a request: `new_request` checks the method and the
-- address, `send` returns the status of the response. The header of a request is the configured one.
pub record Request : Type 0 where
  pub method : Str
  pub url : Str
  pub headers : List (Str × Str)
  pub body : Str

pub record Network (F : Type 0) : Type 0 where
  pub parse_template : Str → Result Str (AlertData F → Result Str Str)
  pub new_request : Str → Str → Result Str Unit
  pub send : Request → Result Str ℕ

pub record Webhook (F : Type 0) : Type 0 where
  pub url : Str
  pub method : Str
  pub headers : List (Str × Str)
  pub template : AlertData F → Result Str Str

-- What became of a webhook's alert.
pub data Delivery : Type 0 where
  not_due : Delivery
  template_failed : Str → Delivery
  request_failed : Str → Delivery
  send_failed : Request → Str → Delivery
  responded : Request → ℕ → Delivery

abbrev pub default_template : Str
default_template =
    codes
      "{\"rule\":\"{{.RuleName}}\",\"group\":\"{{.GroupKey}}\",\"func\":\"{{.AggFunc}}\",\"value\":{{.Value}},\"threshold\":{{.Threshold}},\"op\":\"{{.Op}}\",\"window_start\":\"{{.WindowStart.Format \"15:04\"}}\",\"window_end\":\"{{.WindowEnd.Format \"15:04\"}}\",\"corrected\":{{.Corrected}}}"

module _ {F : Type 0} ⦃net : Network F⦄ where
  -- NewWebhook
  unfoldable pub new_webhook : Str → Str → Option (List (Str × Str)) → Str → Result Str (Webhook F)
  new_webhook url method headers template =
      let method' = if method == [] then codes "POST" else method in
      let headers' : List (Str × Str) = elim headers [
        | none ↦ (codes "Content-Type", codes "application/json") ∷ []
        | some hs ↦ hs
      ] in
      let template' = if template == [] then default_template else template in
      elim (net.parse_template template') [
        | err e ↦ err (codes "webhook template: " ++ e)
        | ok parsed ↦
            ok (record { url = url; method = method'; headers = headers'; template = parsed })
      ]

  post : Webhook F → Request → Result Str Unit → Delivery
  post w req (err e) = request_failed e
  post w req (ok _) = elim (net.send req) [
    | err e ↦ send_failed req e
    | ok status ↦ responded req status
  ]

  deliver : Webhook F → Result Str Str → Delivery
  unfolding post
  deliver w (err e) = template_failed e
  deliver w (ok body) =
      post w (record { method = w.method; url = w.url; headers = w.headers; body = body })
        (net.new_request w.method w.url)

  -- Webhook.Emit: what became of the alert, and the reported result.
  unfoldable pub webhook_emit : ⦃fl : Floats F⦄ → Webhook F → Rule F → Aggregate F → Delivery × Bool
  unfolding deliver alert_data
  webhook_emit w r res =
      if not (satisfied r.having res.value)
      then (not_due, false)
      else (deliver w (w.template (alert_data r res)), true)

module _ {F : Type 0} ⦃fl : Floats F⦄ where
  unfoldable pub format_num : F → Str
  format_num f =
      if fl.equal f (fl.of_int (fl.to_int f)) then format_int (fl.to_int f) else fl.format f

  unfoldable pub alert_line : Rule F → Aggregate F → Str
  unfolding format_num format_clock
  alert_line r res =
      let joined = join (codes "+") r.group_by in
      let group_by = if joined == [] then codes "group" else joined in
      let suffix : Str = if res.corrected then codes " (corrected)" else [] in
      codes "[ALERT] rule="
      ++ (r.name
          ++ (codes " "
              ++ (group_by
                  ++ (codes "="
                      ++ (res.key.group_key
                          ++ (codes " "
                              ++ (r.agg_func
                                  ++ (codes "="
                                      ++ (format_num res.value
                                          ++ (codes " "
                                              ++ (symbol r.having
                                                  ++ (codes " "
                                                      ++ (format_num r.having.value
                                                          ++ (codes " ("
                                                            ++ (format_clock res.key.window_start
                                                            ++ (codes "-"
                                                            ++ (format_clock res.window_end
                                                            ++ (codes ")"
                                                            ++ (suffix
                                                            ++ codes "\n")))))))))))))))))))

  -- Console.Emit: the text that is written, and the reported result.
  unfoldable pub console_emit : Rule F → Aggregate F → Str × Bool
  unfolding alert_line
  console_emit r res =
      if not (satisfied r.having res.value) then ([], false) else (alert_line r res, true)

-- The notifiers of an engine, and what one of them did with a result.
pub data Notifier (F : Type 0) : Type 0 where
  console : Notifier F
  webhook : Webhook F → Notifier F

pub data Emission : Type 0 where
  written : Str → Emission
  delivered : Delivery → Emission

unfoldable pub emit :
    {F : Type 0} ⦃fl : Floats F⦄ ⦃net : Network F⦄
    → Notifier F
    → Rule F
    → Aggregate F
    → Emission × Bool
emit console r res = let (text, fired) = console_emit r res in (written text, fired)
emit (webhook w) r res = let (outcome, fired) = webhook_emit w r res in (delivered outcome, fired)
