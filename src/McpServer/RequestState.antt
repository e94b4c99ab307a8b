-- ===== src/McpServer/RequestState.antt =====
-- packages/mcp-server/src/request-state.ts: `createMcpRequestStateStore`, which bounds the rounds of a
-- request.
use appspine_packages.Base.{
  ℕ, zero, suc, ◌≡◌, Option, if◌then◌else◌, ltb, leb, get_or, Text, Result, ok, err, ◌>>=◌,
}

pub record Payload (Data : Type 0) : Type 0 where
  pub round : ℕ
  pub payload_data : Data

pub data StateError : Type 0 where
  range_error codec_rejected : StateError
  round_limit : ℕ → StateError

-- The codec of @modelcontextprotocol/server for one key, principal and method: sealing a payload, and
-- opening a sealed one that has not expired.
pub record Codec (Data : Type 0) : Type 0 where
  pub seal : Payload Data → Text
  pub unseal : Text → Result StateError (Payload Data)

-- What the codec's documentation promises.
abbrev pub Opens : {Data : Type 0} → Codec Data → Type 0
Opens {Data} codec = (p : Payload Data) → codec.unseal (codec.seal p) ≡ ok p

-- `options.maxRounds ?? 8`, if it is positive.
unfoldable pub max_rounds_of : Option ℕ → Result StateError ℕ
max_rounds_of option = let n = get_or option 8 in if ltb 0 n then ok n else err range_error

module _ {Data : Type 0} (codec : Codec Data) (max_rounds : ℕ) where
  unfoldable pub check_round : Payload Data → Result StateError (Payload Data)
  check_round payload =
      if leb max_rounds payload.round then err (round_limit max_rounds) else ok payload

  unfoldable pub verify : Text → Result StateError (Payload Data)
  unfolding check_round
  verify state = do payload ← codec.unseal state; check_round payload

  unfoldable pub mint : Data → Text
  mint d = codec.seal (record { round = 0; payload_data = d })

  unfoldable pub mint_next_round : Data → ℕ → Result StateError Text
  mint_next_round d previous_round =
      if leb max_rounds (suc previous_round)
      then err (round_limit max_rounds)
      else ok (codec.seal (record { round = suc previous_round; payload_data = d }))

  -- A flow whose handler asks for a further round each time that it is entered again: the state that the
  -- client echoes is verified, which enters the handler again, and the handler mints the state of the
  -- next round. It goes on until the handler has been entered this often.
  unfoldable pub reenter_times : (Data → Data) → ℕ → Text → Result StateError (Unit {0})
  reenter_times next zero state = ok tt
  reenter_times next (suc zero) state = do payload ← verify state; ok tt
  reenter_times next (suc (suc n)) state = do
    payload ← verify state
    later ← mint_next_round (next payload.payload_data) payload.round
    reenter_times next (suc n) later
