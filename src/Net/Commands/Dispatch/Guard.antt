-- ===== src/Net/Commands/Dispatch/Guard.antt =====
-- The guard of net/prot.go's dispatchCmd, for the commands that net/serv.go's hConn hands over.
use gostalkd.Prelude.{
  ℕ, suc, ◌+◌, ◌<◌, ◌≡◌, sym, ◌∙◌, true, ◌++◌, ◌∷◌, cr, lf, ◌==◌, length, length-append, mod64,
  sub64, arith, Bytes,
}
use gostalkd.Utils.Str.{str_len}
use gostalkd.Utils.Str.Names.{to_str-append}
use gostalkd.Net.Protocol.{which_cmd, scan_line_end}
use gostalkd.Net.Protocol.Lines.{scan_line_end-Line}
use gostalkd.Machine.{World}
use gostalkd.Net.Commands.Dispatch.{dispatch_cmd, dispatch_op}

same : (a b : ℕ) → a ≡ b → (a == b) ≡ true
same a b e = ground arith

-- the length of a line without its CR LF, from the length with it
bare_length :
    (s before after : Bytes) (n : ℕ)
    → s ≡ before ++ cr ∷ lf ∷ after
    → n ≡ length before + 2
    → length s < mod64
    → sub64 n 2 ≡ length before
bare_length s before after n at len h =
    let long : length (before ++ cr ∷ lf ∷ after) < mod64 = rw at at h in
    let split = length-append before (cr ∷ lf ∷ after) in omega (arith, len, long, split)

-- Where scanLineEnd has found a line and CmdLen is its length, the length that dispatchCmd
-- compares is right: it does not reply BAD_FORMAT, and runs the handler of the command.
pub dispatch_cmd-dispatch_op :
    (w : World) (c n : ℕ)
    → scan_line_end (w.conn c).cmd (w.conn c).cmd_read ≡ suc n
    → (w.conn c).cmd_len ≡ suc n
    → length (w.conn c).cmd < mod64
    → dispatch_cmd c w ≡ dispatch_op c (which_cmd (w.conn c).cmd) w
unfolding dispatch_cmd
dispatch_cmd-dispatch_op w c n e len h =
    let cmd = (w.conn c).cmd in
    let line = scan_line_end-Line cmd (w.conn c).cmd_read n e in
    let bare : sub64 (w.conn c).cmd_len 2 ≡ length line.before =
      rw len (bare_length cmd line.before line.after (suc n) line.parts line.len h) in
    let found : str_len cmd ≡ length line.before =
      rw line.parts (to_str-append line.before (lf ∷ line.after) line.free).1 in
    rw (dispatch_cmd, same (str_len cmd) (sub64 (w.conn c).cmd_len 2) (found ∙ sym bare))
