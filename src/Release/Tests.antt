-- ===== src/Release/Tests.antt =====
-- Calls of apps/api/src/release-budget.ts on concrete inputs, and each property of its budget at an
-- input that it covers.
use tech_p.Base.{
  ℕ, ◌≡◌, ◌≢◌, refl, sym, ◌∙◌, Bool, true, false, List, [], ◌∷◌, any, all, ◌==◌, codes, Text, nat,
  Result, ok, err,
}
use tech_p.Budget.Ledger.Configuring.{is_sha256}
use tech_p.Release.Journal
use tech_p.Release.Execute.{CallOutcome, Executed, execute}
use tech_p.Release.Journal.{
  ReleaseError, ReleaseReservation, ReleaseEvent, RawUsage, ReleaseUsage, ReleaseState, within_caps,
  replay, assert_ready, admit_call, usage, sum, validate_reservation, apply_event,
}
use tech_p.Release.Caps.{ReleaseCall, execute_all, total_within_caps}
use tech_p.Release.Replay.{execute_replays, lost_call_blocks}

-- RELEASE_CAPS
abbrev release_caps : ReleaseUsage
release_caps = record {
  micro_usd = 250000;
  embedding_calls = 100;
  embedding_input = 100000;
  chat_calls = 60;
  chat_input = 300000;
  chat_output = 30000;
}

abbrev start : ReleaseState
start = record {
  total = record {
    micro_usd = 0;
    embedding_calls = 0;
    embedding_input = 0;
    chat_calls = 0;
    chat_input = 0;
    chat_output = 0;
  };
  pending = [];
  used = [];
  busy = false;
  poisoned = false;
}

abbrev chat_usage : ℕ → RawUsage
chat_usage n = record {
  micro_usd = nat n;
  embedding_calls = nat 0;
  embedding_input = nat 0;
  chat_calls = nat 1;
  chat_input = nat n;
  chat_output = nat n;
}

abbrev hash : Text
hash = codes "0123456789abcdef0123456789abcdef0123456789abcdef0123456789abcdef"

abbrev answer : CallOutcome
answer = CallOutcome.answered (chat_usage 7) true

abbrev done : Executed
done = execute release_caps true Journal.CallKind.chat hash (chat_usage 9) 1 answer start

returns : done.result ≡ ok tt
unfolding execute is_sha256 all
returns = refl

spent : done.state.total.micro_usd ≡ 7
unfolding execute is_sha256 all
spent = refl

fresh : any (λ n. n == 1) start.used ≡ false
unfolding any
fresh = refl

execute_replays_example :
    replay release_caps done.events start ≡ ok (record done.state { used = 1 ∷ start.used })
execute_replays_example =
    execute_replays release_caps true Journal.CallKind.chat hash (chat_usage 9) 1 answer start fresh
      returns

abbrev calls : List ReleaseCall
calls =
    record {
      reconciled = true;
      kind = Journal.CallKind.chat;
      request_hash = hash;
      reserved = chat_usage 9;
      id = 1;
      outcome = answer;
    }
    ∷ record {
      reconciled = true;
      kind = Journal.CallKind.chat;
      request_hash = hash;
      reserved = chat_usage 30000;
      id = 2;
      outcome = answer;
    }
    ∷ []

total_within_caps_example :
    within_caps (execute_all release_caps calls start).total release_caps ≡ true
total_within_caps_example = total_within_caps release_caps calls start refl

abbrev lost : Executed
lost =
    execute release_caps true Journal.CallKind.chat hash (chat_usage 9) 1 CallOutcome.call_threw
      start

abbrev lost_request : ReleaseReservation
lost_request = record {
  id = 1;
  kind = Journal.CallKind.chat;
  request_hash = hash;
  reserved = chat_usage 9;
}

lost_result : lost.result ≡ err Journal.call_failed
unfolding execute is_sha256 all
lost_result = refl

lost_events : lost.events ≡ ReleaseEvent.reserve lost_request ∷ []
unfolding execute is_sha256 all
lost_events = refl

lost_fails : lost.result ≢ ok tt
lost_fails e =
    let no : Path (Result ReleaseError (Unit {0})) (err Journal.call_failed) (ok tt) =
      sym lost_result ∙ e in
    cc

lost_written : lost.events ≢ []
lost_written e = let no : ReleaseEvent.reserve lost_request ∷ [] ≡ [] = sym lost_events ∙ e in cc

lost_call_blocks_example :
    (s' : ReleaseState) × (replay release_caps lost.events start ≡ ok s')
    × ((b : Bool) → assert_ready release_caps b s' ≢ ok tt)
lost_call_blocks_example =
    lost_call_blocks release_caps true Journal.CallKind.chat hash (chat_usage 9) 1
      CallOutcome.call_threw start fresh lost_fails lost_written
