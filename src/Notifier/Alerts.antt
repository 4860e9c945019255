-- ===== src/Notifier/Alerts.antt =====
-- When a notifier alerts, and what it says.
use mathlib.Core.List.{append_assoc}
use stream_rail.Common.{
  ℕ, ◌≡◌, true, false, [], ◌∷◌, ◌++◌, ◌==◌, list_eq, nat_eq, Str, codes, arith, if◌then◌else◌,
  Bool-cases, inl, inr,
}
use stream_rail.Rule.{Floats, Rule, satisfied, symbol, join}
use stream_rail.Window.{ok, err}
use stream_rail.Aggregator.{Aggregate}
use stream_rail.Notifier.{
  Network, Notifier, console, webhook, Webhook, AlertData, Request, Delivery, template_failed,
  request_failed, send_failed, responded, Emission, written, delivered, not_due, emit, console_emit,
  webhook_emit, format_num, format_clock, alert_line,
}

-- How the text of an alert reads: words between spaces, in one line.
abbrev pub Line : {F : Type 0} ⦃fl : Floats F⦄ → Rule F → Aggregate F → Str → Type 0
Line r res text =
    let label = join (codes "+") r.group_by in
    text
    ≡ join (codes " ") (
        codes "[ALERT]"
        ∷ (codes "rule=" ++ r.name)
        ∷ ((if label == [] then codes "group" else label) ++ (codes "=" ++ res.key.group_key))
        ∷ (r.agg_func ++ (codes "=" ++ format_num res.value))
        ∷ symbol r.having
        ∷ format_num r.having.value
        ∷ (codes "("
            ++ (format_clock res.key.window_start
                ++ (codes "-" ++ (format_clock res.window_end ++ codes ")"))))
        ∷ (if res.corrected then codes "(corrected)" ∷ [] else []))
      ++ codes "\n"

-- The alert data of a rule and a result.
abbrev pub told : {F : Type 0} → Rule F → Aggregate F → AlertData F
told r res = record {
  rule_name = r.name;
  group_key = res.key.group_key;
  agg_func = r.agg_func;
  value = res.value;
  threshold = r.having.value;
  op = symbol r.having;
  window_start = res.key.window_start;
  window_end = res.window_end;
  corrected = res.corrected;
}

module _ {F : Type 0} ⦃fl : Floats F⦄ ⦃net : Network F⦄ where
  -- What becomes of an alert that a webhook has to report: its template is applied to the alert data;
  -- a request with its method, its address, its headers and the text is made; and this request is
  -- sent.
  pub record Posted (w : Webhook F) (data' : AlertData F) (d : Delivery) : Type 0 where
    pub no_text : (e : Str) → w.template data' ≡ err e → d ≡ template_failed e
    pub no_request :
        (body e : Str)
        → w.template data' ≡ ok body
        → net.new_request w.method w.url ≡ err e
        → d ≡ request_failed e
    pub not_sent :
        (body e : Str)
        → let req : Request = record {
          method = w.method;
          url = w.url;
          headers = w.headers;
          body = body;
        } in
          w.template data' ≡ ok body
          → net.new_request w.method w.url ≡ ok tt
          → net.send req ≡ err e
          → d ≡ send_failed req e
    pub answered :
        (body : Str) (status : ℕ)
        → let req : Request = record {
          method = w.method;
          url = w.url;
          headers = w.headers;
          body = body;
        } in
          w.template data' ≡ ok body
          → net.new_request w.method w.url ≡ ok tt
          → net.send req ≡ ok status
          → d ≡ responded req status

  -- What a notifier has to do with a result that satisfies HAVING.
  abbrev pub Reported : Notifier F → Rule F → Aggregate F → Emission → Type 0
  Reported console r res (written text) = Line r res text
  Reported console r res (delivered d) = ⊥
  Reported (webhook w) r res (written text) = ⊥
  Reported (webhook w) r res (delivered d) = Posted w (told r res) d

  abbrev pub silence : Notifier F → Emission
  silence console = written []
  silence (webhook w) = delivered not_due

  webhook_lem :
      (w : Webhook F) (r : Rule F) (res : Aggregate F)
      → satisfied r.having res.value ≡ true
      → Posted w (told r res) (webhook_emit w r res).0
  unfolding webhook_emit
  webhook_lem w r res h = record {
    no_text = λ e t. ground (arith, h, t);
    no_request = λ body e t q. ground (arith, h, t, q);
    not_sent = λ body e t q s. ground (arith, h, t, q, s);
    answered = λ body status t q s. ground (arith, h, t, q, s);
  }

  console_lem :
      (r : Rule F) (res : Aggregate F)
      → satisfied r.having res.value ≡ true
      → Line r res (console_emit r res).0
  unfolding console_emit join alert_line
  console_lem r res h = elim (Bool-cases res.corrected) [
    | inl e ↦ rw (h, e) (simp append_assoc)
    | inr e ↦ rw (h, e) (simp append_assoc)
  ]

  -- A value that does not satisfy HAVING is reported by no notifier: nothing is written, and nothing
  -- asked of the network. Of one that does, the console writes the line of the alert, in words
  -- between spaces; a webhook renders the alert data, makes the request with its method, its
  -- address, its headers and this text, sends it, and passes on the first failure among these or the
  -- response's status. That it alerted is returned exactly if HAVING is satisfied, also where a
  -- webhook fails.
  pub emit-fires :
      (n : Notifier F) (r : Rule F) (res : Aggregate F)
      → ((emit n r res).1 ≡ satisfied r.having res.value)
        × (satisfied r.having res.value ≡ false → (emit n r res).0 ≡ silence n)
        × (satisfied r.having res.value ≡ true → Reported n r res (emit n r res).0)
  unfolding emit
  emit-fires console r res = (
    unfold console_emit in ground arith,
    (unfold console_emit in λ h. ground (arith, h)),
    console_lem r res,
  )
  emit-fires (webhook w) r res = (
    unfold webhook_emit in ground arith,
    (unfold webhook_emit in λ h. ground (arith, h)),
    webhook_lem w r res,
  )
