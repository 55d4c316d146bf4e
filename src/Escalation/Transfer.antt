-- ===== src/Escalation/Transfer.antt =====
-- TransferToHuman of apps/voice-worker/src/voice_worker/tools/escalation.py, and TransferRequest of
-- flow/escalation.py that reads what it returns. The rows that the database gives are in `Desk`; the
-- whisper and the line that the caller hears are texts and left out.
use uaagro_voice_agent.Prelude.{
  ℕ, leb, Bool, ◌&&◌, ◌||◌, not, Option, none, some, List, [], ◌∷◌, ◌++◌, String, str_eq, nat_eq,
  string_eq, contains, if◌then◌else◌,
}
use uaagro_voice_agent.Escalation.Reasons.{
  TransferReason, safety_emergency, abuse_or_anger, legal_or_dispute, reason_eq, TransferUrgency,
  normal, high, critical, is_critical,
}

abbrev pub daily_transfer_cap : ℕ
daily_transfer_cap = 3

abbrev pub ring_seconds : ℕ
ring_seconds = 20

abbrev pub always_transfer : List TransferReason
always_transfer = safety_emergency ∷ []

pub data TargetKind : Type 0 where
  centre_manager centre_desk district_desk helpline_desk : TargetKind

pub record TransferTarget : Type 0 where
  pub kind : TargetKind
  pub name : Option String
  pub number : String
  pub rank : ℕ

-- The times of a day are counted from midnight, the days of the week from 0.
pub record Centre : Type 0 where
  pub centre_name : String
  pub transfer_number : Option String
  pub working_days : List ℕ
  pub open_time : ℕ
  pub close_time : ℕ
  pub phone : Option String

-- A person or a centre with the number on file.
abbrev pub Contact : Type 0
Contact = String × Option String

-- What the database and the telephony port answer: the centre of the call, its manager, the first
-- other centre of the district with a number, the organisation's helpline, the numbers that are
-- busy, and the caller's transfers of the day.
pub record Desk : Type 0 where
  pub centre : Option Centre
  pub manager : Option Contact
  pub regional : Option Contact
  pub helpline : Option String
  pub busy : List String
  pub used : ℕ

pub data Why : Type 0 where
  daily_cap_reached centre_closed chain_exhausted : Why

-- The tool's result, or the error where no centre is found.
pub data Transferred : Type 0 where
  transfer : TransferReason → TransferUrgency → TransferTarget → Transferred
  commit_callback : TransferReason → TransferUrgency → Why → Centre → Transferred
  not_found : Transferred

unfoldable pub default_urgency : TransferReason → TransferUrgency
default_urgency reason =
    if reason_eq.beq reason safety_emergency
    then critical
    else if contains reason (abuse_or_anger ∷ legal_or_dispute ∷ [])
    then high
    else normal

abbrev pub urgency_of : TransferReason → Option TransferUrgency → TransferUrgency
urgency_of reason none = default_urgency reason
urgency_of reason (some urgency) = urgency

unfoldable pub is_open : Centre → ℕ → ℕ → Bool
is_open centre weekday time =
    contains weekday centre.working_days
    && (leb centre.open_time time && leb time centre.close_time)

-- A number that is missing or empty gives no rung.
abbrev pub rung : TargetKind → Option String → ℕ → Option String → List TransferTarget
rung kind name rank none = []
rung kind name rank (some number) =
    if str_eq number ""
    then []
    else record { kind = kind; name = name; number = number; rank = rank } ∷ []

abbrev pub rung_of : TargetKind → ℕ → Option Contact → List TransferTarget
rung_of kind rank none = []
rung_of kind rank (some (name, number)) = rung kind (some name) rank number

unfoldable pub chain : Desk → Centre → List TransferTarget
chain desk centre =
    rung_of centre_manager 1 desk.manager
    ++ (rung centre_desk (some centre.centre_name) 2 centre.transfer_number
        ++ (rung_of district_desk 3 desk.regional
            ++ rung helpline_desk (some "हेल्पलाइन") 4 desk.helpline))

-- The first target that is not busy.
unfoldable pub first_free : List String → List TransferTarget → Option TransferTarget
first_free busy [] = none
first_free busy (target ∷ targets) =
    if contains target.number busy then first_free busy targets else some target

unfoldable pub ring :
    TransferReason → TransferUrgency → Centre → Option TransferTarget → Transferred
ring reason urgency centre none = commit_callback reason urgency chain_exhausted centre
ring reason urgency centre (some target) = transfer reason urgency target

abbrev pub overrides : TransferReason → TransferUrgency → Bool
overrides reason urgency = contains reason always_transfer || is_critical urgency

unfoldable pub run_at :
    Desk → TransferReason → TransferUrgency → ℕ → ℕ → Option Centre → Transferred
run_at desk reason urgency weekday time none = not_found
run_at desk reason urgency weekday time (some centre) =
    if leb daily_transfer_cap desk.used && not (overrides reason urgency)
    then commit_callback reason urgency daily_cap_reached centre
    else if not (is_open centre weekday time) && not (overrides reason urgency)
    then commit_callback reason urgency centre_closed centre
    else ring reason urgency centre (first_free desk.busy (chain desk centre))

unfoldable pub run : Desk → TransferReason → Option TransferUrgency → ℕ → ℕ → Transferred
run desk reason urgency weekday time =
    run_at desk reason (urgency_of reason urgency) weekday time desk.centre
