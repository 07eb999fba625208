-- ===== src/Net/Quiet/Tests.antt =====
-- A command that leaves lines and numbers as they are, on a concrete input.
use gostalkd.Machine.{op_reserve}
use gostalkd.Machine.Frame.{Quiet, Ends}
use gostalkd.Machine.Sample.{sample_world}
use gostalkd.Net.Commands.Dispatch.{dispatch_op}
use gostalkd.Net.Quiet.Dispatch.{dispatch_op-Quiet}

dispatch_op-Quiet_example :
    Ends (λ out. Quiet sample_world out.1) (dispatch_op 1 op_reserve sample_world)
dispatch_op-Quiet_example = dispatch_op-Quiet 1 op_reserve sample_world tt
