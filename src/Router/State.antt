-- ===== src/Router/State.antt =====
-- The shared state of one channel: `channelState` of internal/audit/router.go and `rpmUsed` of
-- internal/audit/channel_rpm.go.
use deepseek_moderation_api.Prelude.{
  ℕ, ◌+◌, Bool, false, not, List, [], ◌∷◌, String, str_eq, leb, if◌then◌else◌, length,
}
use deepseek_moderation_api.Clock.{minute, is_zero, after}

-- The fields of `ModelChannel` (internal/audit/model.go) that routing reads.
pub record ModelChannel : Type 0 where
  pub id : String
  pub max_concurrency : ℕ
  pub rpm : ℕ
  pub revision : ℕ

pub record ChannelBinding : Type 0 where
  pub priority : ℕ
  pub weight : ℕ

pub record RouteCandidate : Type 0 where
  pub channel : ModelChannel
  pub binding : ChannelBinding
  pub signature : String

pub record ChannelState : Type 0 where
  pub last_success : ℕ
  pub last_failure : ℕ
  pub last_error : String
  pub revision : ℕ
  pub signature : String
  pub in_flight : ℕ
  pub consecutive : ℕ
  pub calls : ℕ
  pub failures : ℕ
  pub until : ℕ
  pub probe : Bool
  pub rpm_pending : ℕ
  pub rpm_calls : List ℕ

abbrev pub fresh_state : ChannelState
fresh_state = record {
  last_success = 0;
  last_failure = 0;
  last_error = "";
  revision = 0;
  signature = "";
  in_flight = 0;
  consecutive = 0;
  calls = 0;
  failures = 0;
  until = 0;
  probe = false;
  rpm_pending = 0;
  rpm_calls = [];
}

abbrev pub Routes : Type 0
Routes = String → ChannelState

-- `e.routes[id] = st`, or a write through the pointer that is stored there.
abbrev pub update : Routes → String → ChannelState → Routes
update routes id st j = if str_eq id j then st else routes j

-- A call has left the rolling window when it is not after `now` less a minute.
unfoldable pub expire : ℕ → List ℕ → List ℕ
expire now [] = []
expire now (t ∷ ts) = if leb (t + minute) now then expire now ts else t ∷ ts

-- `rpmUsed` drops the expired calls from the state and counts the others and the reservations.
unfoldable pub trim_calls : ℕ → ChannelState → ChannelState
trim_calls now st = record st { rpm_calls = expire now st.rpm_calls }

unfoldable pub rpm_used : ChannelState → ℕ
rpm_used st = length st.rpm_calls + st.rpm_pending

-- What a new configuration, or a reset by the administrator, forgets.
unfoldable pub forget : ChannelState → ChannelState
forget st = record st {
  last_success = 0;
  last_failure = 0;
  last_error = "";
  consecutive = 0;
  until = 0;
  probe = false;
}

unfoldable pub reset_channel : ChannelState → ChannelState
unfolding forget
reset_channel st = record (forget st) { signature = "" }

-- The start of a candidate's round in `acquireRoute`: a changed signature starts afresh.
unfoldable pub adopt : RouteCandidate → ChannelState → ChannelState
unfolding forget
adopt c st =
    if str_eq st.signature c.signature
    then st
    else record (forget st) { revision = c.channel.revision; signature = c.signature }

pub data Status : Type 0 where
  ready cooling half_open : Status

-- `channelHealth`; a time that was never set is 0.
pub record ChannelHealth : Type 0 where
  pub status : Status
  pub verified : Bool
  pub last_success_at : ℕ
  pub last_failure_at : ℕ
  pub calls : ℕ
  pub failures : ℕ
  pub rpm_used : ℕ
  pub in_flight : ℕ
  pub cooldown_until : ℕ
  pub last_error_code : String
  pub configuration_revision : ℕ

unfoldable pub channel_health : ℕ → ChannelState → ChannelHealth
unfolding trim_calls
channel_health now st = record {
  status =
      if after st.until now then cooling else if not (is_zero st.until) then half_open else ready;
  verified = not (is_zero st.last_success);
  last_success_at = st.last_success;
  last_failure_at = st.last_failure;
  calls = st.calls;
  failures = st.failures;
  rpm_used = length (trim_calls now st).rpm_calls + st.rpm_pending;
  in_flight = st.in_flight;
  cooldown_until = st.until;
  last_error_code = st.last_error;
  configuration_revision = st.revision;
}
