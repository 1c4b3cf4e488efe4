-- ===== src/Startup/Tests.antt =====
-- The start of cmd/server/main.go at concrete answers.
use filesearch.Base.{
  ℕ, ◌≡◌, refl, Bool, true, false, ltb, Option, none, some, [], ◌∷◌, codes, arith, if◌then◌else◌,
}
use filesearch.Base.Int.{pos}
use filesearch.Base.Result.{err}
use filesearch.Startup.{
  Flags, HttpAnswer, already_running, check_port, wait_for_server, newer_version, chosen_paths,
}
use filesearch.Startup.Waiting.{Tells, wait_for_server-Tells}

abbrev flags : Flags
flags = record {
  json_log = false;
  addr = codes "127.0.0.1:8080";
  port = pos 0;
  dir = [];
  db = [];
  config = codes "/etc/fs.json";
  token = [];
  no_browser = false;
}

-- Another FileSearch answers at the address.
running :
    check_port flags
      (some (record { status = 200; body = some (codes "{\"app\":\"filesearch\"}") }))
      none
    ≡ already_running true
unfolding check_port filesearch.Startup.is_file_search_running
running = refl

-- A server that answers from the time 250 on; each poll takes 10 ms.
abbrev slow_start : ℕ → ℕ × Option HttpAnswer
slow_start t = (10, if ltb t 250 then none else some (record { status = 200; body = some [] }))

wait_for_server-Tells_example :
    (b : Bool) × (wait_for_server slow_start 500 6 0 ≡ some b) × Tells slow_start 500 0 b
wait_for_server-Tells_example = wait_for_server-Tells slow_start 500 5 0 (ground arith)

waits : wait_for_server slow_start 500 6 0 ≡ some true
unfolding wait_for_server
waits = refl

exe_paths :
    chosen_paths (err (codes "no home" ∷ [])) (codes "/opt/fs") flags
    ≡ (codes "/opt/fs/data/index.db", codes "/etc/fs.json")
unfolding chosen_paths
exe_paths = refl

update :
    newer_version
      (λ body. some body)
      (codes "1.0.1")
      (some (record { status = 200; body = some (codes "v1.0.2") }))
    ≡ some (codes "1.0.2")
unfolding newer_version
update = refl
