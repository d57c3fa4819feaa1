-- ===== src/Commands/Clusterctl/Exchange.antt =====
-- cmd/clusterctl/main.go: the method request behind the call, and run. The client's timeout is left
-- out.
use cs320_cluster_process_ma.Base.{
  ℕ, String, List, [], ◌∷◌, ◌==◌, string_eq, Bool, ◌||◌, not, Option, none, some, ltb, leb, nat_beq,
  if◌then◌else◌,
}
use cs320_cluster_process_ma.Base.Flags.{text, Flags, text_named, parse_flags}
use cs320_cluster_process_ma.Base.Urls.{trim_end}
use cs320_cluster_process_ma.Commands.Answers.{Answer, done, failed, or_fail, ◌>>=◌}
use cs320_cluster_process_ma.Transport.Bodies.{Codec, Call}
use cs320_cluster_process_ma.Commands.Clusterctl.{
  Machine, Order, Failure, api, write, network, flags, command,
}

-- A response, and whether its content type mentions "json".
pub record Reply (J : Type 0) : Type 0 where
  pub status : ℕ
  pub is_json : Bool
  pub body : J

-- http.Client.Do with a base URL; `none` is an error of http.NewRequest, Do or io.ReadAll.
-- io.LimitReader is `take`, json.Indent `indent`, and os.WriteFile answers whether it succeeds.
pub record Network (J : Type 0) : Type 0 where
  pub exchange : String → Call J → Option (Reply J)
  pub take : ℕ → J → J
  pub indent : J → Option J
  pub writes : String → J → Bool

-- What a successful command leaves: a file, the body on the terminal, or the text "ok".
pub data Effect (J : Type 0) : Type 0 where
  wrote : String → J → Effect J
  printed : J → Effect J
  printed_ok : Effect J

abbrev pub max_response : ℕ
max_response = 8388608

module _ {J : Type 0} (codec : Codec J) (net : Network J) where
  abbrev indented : Option J → J → J
  indented none content = content
  indented (some formatted) content = formatted

  -- request behind io.ReadAll.
  abbrev pub delivered : String → Reply J → J → Answer Failure (Effect J)
  delivered output reply content =
      if ltb reply.status 200 || leb 300 reply.status
      then failed (api reply.status)
      else if not (output == "")
      then (if net.writes output content then done (wrote output content) else failed write)
      else if nat_beq (codec.size content) 0
      then done printed_ok
      else if reply.is_json
      then done (printed (indented (net.indent content) content))
      else done (printed content)

  -- client.request, with its base URL.
  unfoldable pub request : String → Order J → Answer Failure (Effect J)
  request base order = do
    reply ← or_fail (net.exchange base order.call) network
    delivered order.output reply (net.take max_response reply.body)

abbrev pub global_flags : Flags
global_flags = ("server", text "http://localhost:8080") ∷ []

module _ {J : Type 0} (m : Machine J) (codec : Codec J) (net : Network J) where
  abbrev pub current : String → List String → Answer Failure (Effect J)
  current base args = do order ← command m codec args; request codec net base order

  -- run
  unfoldable pub run : List String → Answer Failure (Effect J)
  unfolding parse_flags command trim_end request
  run arguments = do
    (set, args) ← or_fail (parse_flags m.parse_int arguments global_flags) flags
    current (trim_end b'/' (text_named "server" set)) args
