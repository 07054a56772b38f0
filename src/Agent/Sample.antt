-- ===== src/Agent/Sample.antt =====
-- A model that calls one tool and then answers, a tool that answers the second time, and an engine with
-- three attempts: the sample surroundings of src/agent.rs with which tests run.
use aegis_runtime.Json.{object, end}
use aegis_runtime.Failure.{unavailable_fault}
use aegis_runtime.Agent.{ToolCallItem, by_answer, World, AgentEngine}
use aegis_runtime.Prelude.{[], ◌∷◌, none, some, false, ok, err, ◌==◌, if◌then◌else◌}

abbrev read_call : ToolCallItem
read_call = record { id = "c1"; call_type = "function"; name = "read_file"; arguments = "{}" }

abbrev pub world : World
world = record {
  generate = λ turn ms.
      if turn == 1
      then ok (record {
        content = none;
        reasoning = none;
        tool_calls = some (read_call ∷ []);
        finish_reason = none;
      })
      else ok (record {
        content = some "done";
        reasoning = none;
        tool_calls = none;
        finish_reason = none;
      });
  moment = λ turn call attempt. record {
    is_cancelled = false;
    answer = if attempt == 1 then err (unavailable_fault "busy") else ok "text";
    woken = by_answer;
  };
  clock = λ turn call attempt. (0, 0);
  from_str = λ s. some (object end);
  to_string = λ v. some "{}";
  hashing = record { to_vec = λ v. some []; sha256 = λ b. b };
  stamp = λ n. ("e", 0);
  elapsed = 5;
  line = λ event_type v. none;
  now = "2026-01-01T00:00:00+00:00";
}

abbrev pub engine : AgentEngine
engine = record {
  policy = record { retry = record { max_attempts = 3 }; tool_timeout = none };
  events = some none;
  run_id = "run";
  db = none;
}
