-- ===== src/Logger.antt =====
-- `logger` of logger.h, the service that writes the log. The time and the time zone's text of it are
-- parameters, and so is whether `fopen` gives a file. `file` and `out` are what has been written to
-- the file and to `stdout`.
pub mod Lines
pub mod Tests
use cpp_sk.Base.{
  ℕ, ◌+◌, ◌-◌, ◌/◌, ◌%◌, ◌^◌, Bool, true, false, Option, none, some, List, [], ◌∷◌, ◌++◌, ltb, ◌==◌,
  if◌then◌else◌, length,
}
use cpp_sk.Message.{Bytes, SkynetMessage, Payload, string, Ptype}
use cpp_sk.Service.{Service, Behaviour}
use cpp_sk.Service
use cpp_sk.MessageQueue.{MessageQueue, mq_pop}

pub record Logger : Type 0 where
  pub service : Service
  pub fp : Bool
  pub file : Bytes
  pub out : Bytes

-- `init`, which always succeeds.
unfoldable pub init : (Bytes → Bool) → Bytes → Logger → Logger
unfolding Service.init
init opens param l =
    let l' = record l { service = Service.init l.service } in
    if ltb 0 (length param) then record l' { fp = opens param } else l'

-- The destructor.
unfoldable pub close : Logger → Logger
close l = if l.fp then record l { fp = false } else l

-- `{:08x}`
abbrev pub hex_digit : ℕ → ℕ
hex_digit d = if ltb d 10 then 48 + d else 87 + d

unfoldable pub hex : ℕ → Bytes
hex n =
    hex_digit (n / 2 ^ 28 % 16)
    ∷ hex_digit (n / 2 ^ 24 % 16)
    ∷ hex_digit (n / 2 ^ 20 % 16)
    ∷ hex_digit (n / 2 ^ 16 % 16)
    ∷ hex_digit (n / 2 ^ 12 % 16)
    ∷ hex_digit (n / 2 ^ 8 % 16)
    ∷ hex_digit (n / 2 ^ 4 % 16)
    ∷ hex_digit (n % 16)
    ∷ []

module _ (zoned : ℕ → Bytes) where
  -- "[{}][{:08x}]{}\n"
  unfoldable pub output : ℕ → ℕ → Bytes → Bytes
  unfolding hex
  output now source str = 91 ∷ (zoned now ++ 93 ∷ 91 ∷ (hex source ++ 93 ∷ (str ++ 10 ∷ [])))

  -- `on_text` at the time `now`.
  unfoldable pub on_text : ℕ → ℕ → Bytes → Logger → Logger
  unfolding output
  on_text now source str l =
      let line = output now source str in
      record l { file = if l.fp then l.file ++ line else l.file; out = l.out ++ line }

  -- `cb` with this `on_text`; what the base class does with the other types of messages.
  unfoldable pub cb : Behaviour → ℕ → Ptype → ℕ → ℕ → Payload → Logger → Option Logger
  unfolding on_text
  cb b now Ptype.text session source (string str) l = some (on_text now source str l)
  cb b now Ptype.text session source a l = none
  cb b now t session source a l = elim (Service.cb b l.service t session source a) [
    | none ↦ none
    | some s ↦ some (record l { service = s })
  ]

  -- The messages that a queue gives, handed to `cb` one after the other, one for each time in the list.
  unfoldable pub rounds :
      Behaviour → List ℕ → MessageQueue → Logger → Option (MessageQueue × Logger)
  unfolding cb
  rounds b [] q l = some (q, l)
  rounds b (now ∷ times) q l =
      let (m, q') = mq_pop q in
      elim m [
        | none ↦ some (q', l)
        | some msg ↦ elim (cb b now msg.t msg.session msg.source msg.content l) [
          | none ↦ none
          | some l' ↦ rounds b times q' l'
        ]
      ]
