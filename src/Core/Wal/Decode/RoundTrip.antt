-- ===== src/Core/Wal/Decode/RoundTrip.antt =====
-- The little-endian form that binary.Write gives a JobRec, and reading it back.
use gostalkd.Prelude.{
  ℕ, zero, suc, ◌*◌, ◌/◌, ◌%◌, ◌<◌, ◌≡◌, ap, ◌∙◌, [], ◌∷◌, ◌++◌, Bytes, arith, mod64, mod32,
}
use gostalkd.Core.Job.{JobRec, JobState, invalid, ready, reserved, buried, delayed, copied, other}
use gostalkd.Core.Wal.Decode.{little_endian, state_of, decode_rec}

-- The `k` lowest bytes of a number, the lowest first.
abbrev pub bytes_of : ℕ → ℕ → Bytes
bytes_of zero n = []
bytes_of (suc k) n = n % 256 ∷ bytes_of k (n / 256)

abbrev pub power : ℕ → ℕ
power zero = 1
power (suc k) = 256 * power k

pub little_endian-bytes_of : (k n : ℕ) → n < power k → little_endian (bytes_of k n) ≡ n
unfolding little_endian
little_endian-bytes_of zero n h = omega arith
little_endian-bytes_of (suc k) n h =
    let rest = little_endian-bytes_of k (n / 256) (omega (arith, h)) in omega (arith, rest)

-- The byte of a state.
abbrev pub byte_of : JobState → ℕ
byte_of invalid = 0
byte_of ready = 1
byte_of reserved = 2
byte_of buried = 3
byte_of delayed = 4
byte_of copied = 5
byte_of (other n) = n

-- A JobRec whose numbers fit their fields.
pub record Fits (r : JobRec) : Type 0 where
  pub id : r.id < mod64
  pub pri : r.pri < mod32
  pub delay : r.delay < mod64
  pub ttr : r.ttr < mod64
  pub body_size : r.body_size < mod64
  pub create_at : r.create_at < mod64
  pub deadline_at : r.deadline_at < mod64
  pub reserve_ct : r.reserve_ct < mod32
  pub timeout_ct : r.timeout_ct < mod32
  pub release_ct : r.release_ct < mod32
  pub bury_ct : r.bury_ct < mod32
  pub kick_ct : r.kick_ct < mod32
  pub state : state_of (byte_of r.state) ≡ r.state
  pub byte : byte_of r.state < 256

abbrev pub encode_rec : JobRec → Bytes
encode_rec r =
    bytes_of 8 r.id
    ++ (bytes_of 4 r.pri
        ++ (bytes_of 8 r.delay
            ++ (bytes_of 8 r.ttr
                ++ (bytes_of 8 r.body_size
                    ++ (bytes_of 8 r.create_at
                        ++ (bytes_of 8 r.deadline_at
                            ++ (bytes_of 4 r.reserve_ct
                                ++ (bytes_of 4 r.timeout_ct
                                    ++ (bytes_of 4 r.release_ct
                                        ++ (bytes_of 4 r.bury_ct
                                            ++ (bytes_of 4 r.kick_ct
                                                ++ bytes_of 1 (byte_of r.state))))))))))))

word64 : (n : ℕ) → n < mod64 → little_endian (bytes_of 8 n) ≡ n
word64 n h = little_endian-bytes_of 8 n (omega (arith, h))

word32 : (n : ℕ) → n < mod32 → little_endian (bytes_of 4 n) ≡ n
word32 n h = little_endian-bytes_of 4 n (omega (arith, h))

-- A JobRec whose numbers fit their fields is read back from its 73 bytes as it was.
pub decode_rec-encode_rec : (r : JobRec) → Fits r → decode_rec (encode_rec r) ≡ r
unfolding decode_rec little_endian
decode_rec-encode_rec r h = λ i. record {
  id = word64 r.id h.id i;
  pri = word32 r.pri h.pri i;
  delay = word64 r.delay h.delay i;
  ttr = word64 r.ttr h.ttr i;
  body_size = word64 r.body_size h.body_size i;
  create_at = word64 r.create_at h.create_at i;
  deadline_at = word64 r.deadline_at h.deadline_at i;
  reserve_ct = word32 r.reserve_ct h.reserve_ct i;
  timeout_ct = word32 r.timeout_ct h.timeout_ct i;
  release_ct = word32 r.release_ct h.release_ct i;
  bury_ct = word32 r.bury_ct h.bury_ct i;
  kick_ct = word32 r.kick_ct h.kick_ct i;
  state =
      (ap state_of (little_endian-bytes_of 1 (byte_of r.state) (omega (arith, h.byte))) ∙ h.state)
        i;
}
