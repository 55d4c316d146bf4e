-- ===== src/Dialer/Defs.antt =====
-- The loop of `Dialer.run`. What it awaits is handed in: one `Tick` for each contact says what
-- was commanded since the last one, what the control channel answered, the clock, and how the
-- provider answered the dial. In `run` a dial ends before the next one begins.
use uaagro_voice_agent.Prelude.{
  ℕ, ◌+◌, Bool, true, false, ◌&&◌, not, Option, none, some, List, [], ◌∷◌, String, str_eq,
  if◌then◌else◌,
}
use uaagro_voice_agent.Compliance.{Check, Contact, within_calling_window}

pub record DialerState : Type 0 where
  pub paused : Bool
  pub cancelled : Bool

-- The methods `pause`, `resume` and `cancel`, called by whoever holds the dialer.
pub data Command : Type 0 where
  pause resume cancel : Command

unfoldable pub command : Command → DialerState → DialerState
command pause s = record s { paused = true }
command resume s = record s { paused = false }
command cancel s = record s { cancelled = true }

unfoldable pub command_all : List Command → DialerState → DialerState
unfolding command
command_all [] s = s
command_all (c ∷ rest) s = command_all rest (command c s)

-- What `control` answers: there is none, it raised, or it returned a signal or None.
pub data Signal : Type 0 where
  no_control unreachable : Signal
  heard : Option String → Signal

unfoldable pub obey : String → DialerState → DialerState
unfolding command
obey signal s =
    if str_eq signal "paused" && not s.paused
    then command pause s
    else if str_eq signal "cancelled" && not s.cancelled
    then command cancel s
    else s

unfoldable pub apply_control : Signal → DialerState → DialerState
unfolding obey
apply_control no_control s = s
apply_control unreachable s = s
apply_control (heard none) s = s
apply_control (heard (some signal)) s = obey signal s

-- What `dial` does: it returns the provider's id, or raises.
pub data Dialled : Type 0 where
  placed failed : String → Dialled

pub record DialOutcome : Type 0 where
  pub contact_id : ℕ
  pub dialled : Bool
  pub skipped_by : Option Check
  pub call_sid : Option String
  pub error : Option String

pub record Tick : Type 0 where
  pub commands : List Command
  pub signal : Signal
  pub now : ℕ
  pub originate : Dialled

unfoldable pub state_at : Tick → DialerState → DialerState
unfolding command_all apply_control
state_at t s = apply_control t.signal (command_all t.commands s)

-- The three guards of the loop, in their order.
unfoldable pub stop_reason : (ℕ → ℕ) → ℕ → DialerState → Option String
unfolding within_calling_window
stop_reason ist now s =
    if s.cancelled
    then some "cancelled"
    else if s.paused
    then some "paused"
    else if not (within_calling_window ist now)
    then some "outside the calling window"
    else none

unfoldable pub skipped_outcome : ℕ → Check → DialOutcome
skipped_outcome id failure = record {
  contact_id = id;
  dialled = false;
  skipped_by = some failure;
  call_sid = none;
  error = none;
}

unfoldable pub dial_outcome : ℕ → Dialled → DialOutcome
dial_outcome id (placed sid) = record {
  contact_id = id;
  dialled = true;
  skipped_by = none;
  call_sid = some sid;
  error = none;
}
dial_outcome id (failed name) = record {
  contact_id = id;
  dialled = false;
  skipped_by = none;
  call_sid = none;
  error = some name;
}

pub record CampaignRun (W : Type 0) : Type 0 where
  pub outcomes : List DialOutcome
  pub stopped_reason : Option String
  pub world : W

-- The world that `recheck` reads and `dial` writes is a parameter of the loop.
module _ {W : Type 0} (ist : ℕ → ℕ) (recheck : Contact → ℕ → W → Option Check)
    (dial : Contact → Tick → W → Dialled × W) where
  -- The recheck at one moment, and the dial at another: its task waits for the semaphore in
  -- between, while other tasks change the world.
  unfoldable pub visit_later : Contact → Tick → W → Tick → W → DialOutcome × W
  unfolding skipped_outcome dial_outcome
  visit_later c t w later w' = elim (recheck c t.now w) [
    | some failure ↦ (skipped_outcome c.farmer_id failure, w')
    | none ↦ (dial_outcome c.farmer_id (dial c later w').0, (dial c later w').1)
  ]

  -- Where the semaphore is free the two are one moment.
  unfoldable pub visit : Contact → Tick → W → DialOutcome × W
  unfolding visit_later
  visit c t w = visit_later c t w t w

  unfoldable pub run : List (Contact × Tick) → DialerState → W → CampaignRun W
  run [] s w = record { outcomes = []; stopped_reason = none; world = w }
  run ((c, t) ∷ rest) s w =
      let s' = state_at t s in
      elim (stop_reason ist t.now s') [
        | some reason ↦ record { outcomes = []; stopped_reason = some reason; world = w }
        | none ↦
            let (o, w') = visit c t w in
            let later = run rest s' w' in record later { outcomes = o ∷ later.outcomes }
      ]

-- `CampaignRun.dialled`, `CampaignRun.skipped` and the failures that the report counts.
unfoldable pub count_dialled : List DialOutcome → ℕ
count_dialled [] = 0
count_dialled (o ∷ rest) = (if o.dialled then 1 else 0) + count_dialled rest

unfoldable pub is_some {ℓ} : {A : Type ℓ} → Option A → Bool
is_some none = false
is_some (some a) = true

unfoldable pub count_skipped : List DialOutcome → ℕ
unfolding is_some
count_skipped [] = 0
count_skipped (o ∷ rest) = (if is_some o.skipped_by then 1 else 0) + count_skipped rest

unfoldable pub count_failed : List DialOutcome → ℕ
unfolding is_some
count_failed [] = 0
count_failed (o ∷ rest) = (if is_some o.error then 1 else 0) + count_failed rest
