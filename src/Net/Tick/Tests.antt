-- ===== src/Net/Tick/Tests.antt =====
-- A tick while a connection waits in the heap.
use gostalkd.Prelude.{◌≡◌, [], ◌∷◌}
use gostalkd.Machine.{World}
use gostalkd.Machine.Sample.{sample_world}
use gostalkd.Net.Tick.{prot_tick}
use gostalkd.Net.Tick.Timeouts.{tick_without_conns, prot_tick-no_timeout}

abbrev overdue : World
overdue = record sample_world { connes = record { value = 4; index = 0 } ∷ [] }

prot_tick-no_timeout_example : prot_tick overdue ≡ tick_without_conns overdue
prot_tick-no_timeout_example = prot_tick-no_timeout overdue
