-- ===== src/Adapter/Wire.antt =====
-- atb_adapter/msg_def.h, sockio.h and task_tcpreadmsg.cpp: the messages on the wire. A message is a
-- header of 80 bytes and a body; bodies are the bytes of C structs.
use vm.Prelude.{
  ℕ, ◌+◌, ◌-◌, ◌*◌, ◌%◌, ◌/◌, ◌^◌, not, ◌||◌, List, [], ◌∷◌, ◌++◌, if◌then◌else◌, length, take,
  drop, leb, ltb, nat_beq, replicate,
}
use vm.Prelude.Exec.{Exec, ok, crash, ◌>>=◌}
use vm.Prelude.Text.{Text, codes, text_beq}

-- The commands of msg_def.h that the server handles.
abbrev pub req_login : ℕ
req_login = 0x10000

abbrev pub resp_login : ℕ
resp_login = 0x10001

abbrev pub keep_alive : ℕ
keep_alive = 0x10010

abbrev pub keep_alive_re : ℕ
keep_alive_re = 0x10011

abbrev pub update_change : ℕ
update_change = 0x10040

abbrev pub group_stop_push : ℕ
group_stop_push = 0x10060

abbrev pub req_push : ℕ
req_push = 0x10030

abbrev pub resp_push : ℕ
resp_push = 0x10031

abbrev pub req_stop_push : ℕ
req_stop_push = 0x10032

abbrev pub resp_stop_push : ℕ
resp_stop_push = 0x10033

abbrev pub notify_device_change : ℕ
notify_device_change = 0x10050

-- The sizes of the structs.
abbrev pub header_size : ℕ
header_size = 80

abbrev pub req_login_size : ℕ
req_login_size = 104

abbrev pub resp_push_size : ℕ
resp_push_size = 348

abbrev pub resp_stop_push_size : ℕ
resp_stop_push_size = 68

-- `char data[10*1024]`.
abbrev pub data_size : ℕ
data_size = 10 * 1024

-- What is sent: `MsgHeader` and the body of `header.size` bytes.
pub record Frame : Type 0 where
  pub cmd : ℕ
  pub seq : ℕ
  pub body : Text

-- An `int` as its four bytes, the least first.
unfoldable pub int_bytes : ℕ → Text
int_bytes n = n % 256 ∷ n / 256 % 256 ∷ n / 256 / 256 % 256 ∷ n / 256 / 256 / 256 % 256 ∷ []

unfoldable pub int_at : Text → ℕ
int_at (a ∷ b ∷ c ∷ d ∷ s) = a + 256 * (b + 256 * (c + 256 * d))
int_at _ = 0

-- A zeroed array of `n` bytes into which the bytes are copied.
unfoldable pub padded : ℕ → Text → Text
padded n s = take n (s ++ replicate n 0)

-- `strcpy` into a zeroed `char[n]`: a text that leaves no room for its end overruns the array.
unfoldable pub char_array : ℕ → Text → Exec Text
char_array n s = if ltb (length s) n then ok (padded n s) else crash

-- `std::string(p)`: the bytes up to the first zero. A read past the struct is a fault.
unfoldable pub c_string : Text → Exec Text
c_string [] = crash
c_string (c ∷ s) =
    let rest = c_string s in if nat_beq c 0 then ok [] else (rest >>= λ t. ok (c ∷ t))

-- `ETRecv`: `recv` is called until `n` bytes are there or it gives none. `cuts` says how many bytes
-- each call may give; a 0, or the end of the list, stands for an error, EAGAIN or the peer's close.
unfoldable pub et_recv : ℕ → List ℕ → Text → Text
et_recv n [] stream = []
et_recv n (cut ∷ cuts) stream =
    let got = take cut (take n stream) in
    let more = got ++ et_recv (n - length got) cuts (drop (length got) stream) in
    if nat_beq n 0 || nat_beq (length got) 0 then [] else more

-- The flag of a header is "atb", of which three bytes are compared.
abbrev pub flag : Text
flag = codes "atb"

-- What `TaskTcpReadMsg::run` finds: a reason to delete the client, or a message for `HandlerRead`.
-- `size` 0 passes a null buffer and the sequence number 0.
pub data Incoming : Type 0 where
  bad : Incoming
  empty : (cmd : ℕ) → Incoming
  message : (cmd seq : ℕ) (body : Text) → Incoming

-- The size is an `int`: a negative one, with the top bit set, reads nothing and does not match.
unfoldable pub read_body : ℕ → ℕ → ℕ → List ℕ → Text → Exec Incoming
read_body cmd seq size cuts stream =
    if nat_beq size 0
    then ok (empty cmd)
    else (if leb (2 ^ 31) size
        then ok bad
        else (let body = et_recv size cuts stream in
            if ltb data_size (length body)
            then crash
            else (if nat_beq (length body) size then ok (message cmd seq body) else ok bad)))

-- `header_cuts` and `body_cuts` are the calls of `recv` for the two parts.
unfoldable pub read_message : List ℕ → List ℕ → Text → Exec Incoming
read_message header_cuts body_cuts stream =
    let header = et_recv header_size header_cuts stream in
    if not (nat_beq (length header) header_size)
    then ok bad
    else (if not (text_beq (take 3 header) flag)
        then ok bad
        else read_body (int_at (drop 4 header)) (int_at (drop 8 header)) (int_at (drop 12 header))
            body_cuts (drop header_size stream))

-- The bytes of a message.
unfoldable pub encode : Frame → Text
encode f =
    flag
    ++ (0 ∷ int_bytes f.cmd
        ++ (int_bytes f.seq ++ (int_bytes (length f.body) ++ (replicate 64 0 ++ f.body))))
