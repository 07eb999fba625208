-- ===== src/Net/Serve/Tests.antt =====
-- The rounds of hConn, on a concrete input.
use gostalkd.Prelude.{◌≡◌, ◌++◌, codes, crlf, arith}
use gostalkd.Machine.{World}
use gostalkd.Machine.Actions.{done}
use gostalkd.Machine.Sample.{sample_world, sample_conn}
use gostalkd.Net.Serve.{serve_loop, serve_commands}
use gostalkd.Net.Serve.Rounds.{serve_commands-enough}

-- A connection that has read two commands.
abbrev two_lines : World
two_lines = record sample_world {
  conn = λ c. record sample_conn {
    cmd = codes "list-tube-used" ++ crlf ++ codes "watch a" ++ crlf;
    cmd_read = 25;
  };
}

serve_commands-enough_example : serve_loop done 26 1 two_lines ≡ serve_commands 26 1 two_lines
serve_commands-enough_example =
    serve_commands-enough done 1 26 two_lines (omega arith) (omega arith)
