-- ===== src/Wss/Service.antt =====
-- atb_wss: a request is always served. What the handler must promise is stated, and the texts of
-- the replies must fit the output buffers; `short` bounds the strings that replies carry.
use vm.Prelude.{ℕ, ◌≡◌, ◌≤◌, true, false, Option, none, some, nat_key, Map, Values, length}
use vm.Prelude.Exec.{ok, Ensures}
use vm.Prelude.Int.{ℤ}
use vm.Prelude.Text.{is_empty, Text, text_key}
use vm.Wss.Room.{LiveRoom}
use vm.Wss.Server.{ws_max_data_len}
use vm.Wss.PlayMngr.{Reply, Formats, PlayctrlHandler, PlayMngr}
use vm.Wss.Requests.{Command, read_command}
use vm.Wss.Safety.{AllLive}

-- A bound on the strings of a reply: a token has at most 20 bytes, a result message fewer than 64.
abbrev pub short : ℕ
short = 64

abbrev pub ShortText : Option Text → Type 0
ShortText none = Unit {0}
ShortText (some t) = length t ≤ short

abbrev pub ShortRooms : Map Text LiveRoom → Type 0
ShortRooms = Values (λ r. length r.token ≤ short)

pub record Ready {W : Type 0} (pm : PlayMngr W) : Type 0 where
  pub live : AllLive pm.connections
  pub tokens : ShortRooms pm.rooms

abbrev pub ShortReply : Reply → Type 0
ShortReply r = ShortText r.result × ShortText r.token

-- What the play manager needs of the formatter.
pub record Fits {V : Type 0} (formats : Formats V) : Type 0 where
  pub reply_fits :
      (r : Reply) → ShortReply r → length (formats.to_styled_string r) ≤ ws_max_data_len
  pub reply_filled : (r : Reply) → is_empty (formats.to_styled_string r) ≡ false

-- The start of this camera returns, with strings that are short.
abbrev pub Starts : {W : Type 0} → PlayctrlHandler W → Text → Text → W → Type 0
Starts handler cmsid devid w =
    Ensures (λ r. (length r.1.token ≤ short) × (length r.1.result ≤ short))
      (handler.start_play cmsid devid w)

-- In this state of the adapter, the check of this camera returns, and so does its start after that.
abbrev pub Copes : {W : Type 0} → PlayctrlHandler W → Text → Text → W → Type 0
Copes handler cmsid devid w =
    Ensures (λ p. Starts handler cmsid devid p.0) (handler.check_play_status cmsid devid w)

module _ {V W : Type 0} (formats : Formats V) (handler : PlayctrlHandler W)
    (fits : Fits formats) where
  -- The shape of a result: a manager that is ready, and a return code.
  abbrev ReadyResult : PlayMngr W × ℤ → Type 0
  ReadyResult r = Ready r.0

  -- What a line asks can be answered: it is no JSON, or an object, and if it names a camera, the handler
  -- copes with that camera as the adapter is.
  pub record Answerable (cmdline : Text) (w : W) : Type 0 where
    pub object : (v : V) → formats.parse cmdline ≡ some v → formats.is_object v ≡ true
    pub copes :
        (v : V) (c : Command)
        → formats.parse cmdline ≡ some v
        → read_command formats handler v ≡ ok (some c)
        → Copes handler c.cmsid c.devid w
