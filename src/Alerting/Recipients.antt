-- ===== src/Alerting/Recipients.antt =====
-- Who is notified (`notify` of engine/src/services/alerting.ts).
use looksee.Prelude.{
  ℕ, suc, ◌+◌, ◌≡◌, ap, ◌∙◌, inl, inr, String, Bool, true, not, ◌&&◌, ◌||◌, List, [], ◌∷◌, ◌===◌,
  find, keep, arith, eq_iff, Bool-cases, if◌then◌else◌,
}
use looksee.Thresholds.{Status}
use looksee.Alerting.Tables.{ChannelLink, Channel, Occasion, Sent, Db}
use looksee.Alerting.Incidents.{chosen, is_enabled_channel, deliver_all, notify}

-- How many messages went to a channel.
unfoldable pub count_to : String → List Sent → ℕ
count_to ch [] = 0
count_to ch (s ∷ outbox) =
    let rest = count_to ch outbox in if s.channel_id === ch then suc rest else rest

-- How many links of a rule lead to a channel, of those that a notification is for: every link of
-- the wanted kind. `escalation_only`: the links marked for escalation; otherwise the links that are
-- not, and the marked ones too once the incident has escalated.
unfoldable pub links_to : String → String → Bool → Bool → List ChannelLink → ℕ
links_to ch rule include_escalation escalation_only [] = 0
links_to ch rule include_escalation escalation_only (l ∷ ls) =
    let rest = links_to ch rule include_escalation escalation_only ls in
    if l.rule_id === rule
      && l.channel_id === ch
      && (if escalation_only then l.escalation else not l.escalation || include_escalation)
    then suc rest
    else rest

abbrev pub is_on : String → List Channel → Bool
is_on ch channels = is_enabled_channel (find (λ c. c.id === ch) channels)

add_one_link :
    (here on : Bool) (n m : ℕ)
    → n + (if here then if on then 1 else 0 else 0) + (if on then m else 0)
      ≡ n + (if on then if here && true then suc m else m else 0)
add_one_link here on n m = ground arith

module _ (ch rule : String) (occasion : Occasion) (status : Status) (channels : List Channel) where
  -- The outbox after one chosen link.
  abbrev attempt : ChannelLink → List Sent → List Sent
  attempt l outbox =
      if is_on l.channel_id channels
      then record {
        channel_id = l.channel_id;
        rule_id = rule;
        occasion = occasion;
        status = status;
      }
        ∷ outbox
      else outbox

  count-attempt :
      (l : ChannelLink) (outbox : List Sent)
      → count_to ch (attempt l outbox)
        ≡ count_to ch outbox
          + (if l.channel_id === ch then if is_on ch channels then 1 else 0 else 0)
  unfolding count_to
  count-attempt l outbox = elim (Bool-cases (l.channel_id === ch)) [
    | inl e ↦
        let same : is_on l.channel_id channels ≡ is_on ch channels =
          ap (λ c. is_on c channels) ((eq_iff l.channel_id ch).0 e) in
        rw (same, e) (ground arith)
    | inr e ↦ rw e (ground arith)
  ]

  count-deliver_all :
      (a b : Bool) (ls : List ChannelLink) (outbox : List Sent)
      → count_to ch (
          deliver_all
            (keep (chosen a b) (keep (λ l. l.rule_id === rule) ls))
            channels
            rule
            occasion
            status
            outbox)
        ≡ count_to ch outbox + (if is_on ch channels then links_to ch rule a b ls else 0)
  unfolding count_to links_to deliver_all chosen
  count-deliver_all a b [] outbox = ground arith
  count-deliver_all a b (l ∷ ls) outbox = elim (Bool-cases (l.rule_id === rule)) [
    | inr other ↦ rw other (ground (arith, count-deliver_all a b ls outbox))
    | inl mine ↦ elim (Bool-cases (chosen a b l)) [
      | inr unwanted ↦ rw (mine, unwanted) (ground (arith, count-deliver_all a b ls outbox))
      | inl wanted ↦
          rw (mine, wanted)
            (count-deliver_all a b ls (attempt l outbox)
              ∙ ap (λ n. n + (if is_on ch channels then links_to ch rule a b ls else 0))
                  (count-attempt l outbox)
              ∙ add_one_link (l.channel_id === ch) (is_on ch channels) (count_to ch outbox)
                  (links_to ch rule a b ls))
    ]
  ]

-- A notification sends to each enabled channel one message for each of the rule's links to it that
-- are meant, and to no disabled or missing one: the links not marked for escalation, with the
-- marked ones after the incident has escalated; and the marked ones alone for the escalation
-- notice.
pub count-notify :
    (ch rule : String) (occasion : Occasion) (status : Status) (a b : Bool) (db : Db)
    → count_to ch (notify rule occasion status a b db).outbox
      ≡ count_to ch db.outbox + (if is_on ch db.channels then links_to ch rule a b db.links else 0)
unfolding notify
count-notify ch rule occasion status a b db =
    count-deliver_all ch rule occasion status db.channels a b db.links db.outbox
