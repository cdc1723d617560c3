-- ===== src/Http/Wire.antt =====
-- The client of src/httpclient/mod.rs, its construction, and `send_and_receive`.
use mosfet_rs.Prelude.{
  ℕ, ◌+◌, String, ◌<>◌, Bool, true, false, Option, none, some, List, [], ◌∷◌, Result, ok, err,
  str_eq, take, if◌then◌else◌,
}
use mosfet_rs.Exec.{
  Exec, Outcome, returns, panics, pure, panic, gets, call, unwrap, modify, within, ◌>>=◌, ◌>>◌,
  bad_url, bad_gzip, bad_slice, bad_decode,
}
use mosfet_rs.Util.{get_time_nanos}
use mosfet_rs.Env.{Env, Request}
use mosfet_rs.Messages.{AgentToServer, ApiClientError, ConnectionSettings, api_client_error}
use mosfet_rs.Machine.{State, disconnected}
use mosfet_rs.Defaults.{as_u64}
use mosfet_rs.Agent.{Agent}

pub record HttpClient (E : Env) : Type 0 where
  pub agent : Agent E
  pub open agent use *
  pub address : E.Url
  pub backoff : ℕ  -- u32
  pub seqno : ℕ  -- u64
  pub last_sent_timestamp : ℕ  -- u128
  pub inbox : List E.ServerToAgent
  pub state : State

-- `Vec::as_mut_slice` of a vector that has room but no elements is empty, and so is what is
-- written into it.
abbrev pub empty_slice : ℕ
empty_slice = 0

-- `&bytes[1..]`
abbrev pub skip_first : List ℕ → Option (List ℕ)
skip_first [] = none
skip_first (x ∷ xs) = some xs

module _ (E : Env) where
  open E use {crates, World, ServerToAgent, Response}

  abbrev pub Method : Type 0 → Type 0
  Method A = Exec World (HttpClient E) A

  -- A method of the shared part.
  unfoldable pub on_agent : {A : Type 0} → Exec World (Agent E) A → Method A
  on_agent = within (λ (c : HttpClient E). c.agent) (λ c a. record c { agent = a })

  unfoldable pub new : ConnectionSettings crates → Outcome (HttpClient E)
  new settings = elim (E.parse_url (settings.server_endpoint <> settings.listen_path)) [
    | none ↦ panics bad_url
    | some address ↦ returns (record {
      agent = record { settings = settings; agent_state = none; outbox = [] };
      address = address;
      backoff = 0;
      seqno = 0;
      last_sent_timestamp = 0;
      inbox = [];
      state = disconnected "";
    })
  ]

  -- The number and the persistent fields that a message gets before it is sent.
  abbrev pub stamp : Option (AgentToServer crates) → ℕ → AgentToServer crates → AgentToServer crates
  stamp (some st) n m = record m {
    sequence_num = n;
    capabilities = st.capabilities;
    flags = st.flags;
  }
  stamp none n m = record m { sequence_num = n }

  abbrev pub base_headers : String → List (String × String)
  base_headers key = ("Content-Type", "application/x-protobuf") ∷ ("api-key", key) ∷ []

  abbrev pub plain_request : HttpClient E → ℕ → List ℕ → Request crates
  plain_request c timeout body = record {
    url = c.address;
    headers = base_headers c.settings.api_key;
    body = body;
    timeout = timeout;
  }

  abbrev pub gzip_request : HttpClient E → ℕ → List ℕ → Request crates
  gzip_request c timeout body = record {
    url = c.address;
    headers =
        ("Content-Type", "application/x-protobuf")
        ∷ ("api-key", c.settings.api_key)
        ∷ ("Content-Encoding", "gzip")
        ∷ ("Accept-Encoding", "gzip")
        ∷ [];
    body = body;
    timeout = timeout;
  }

  -- The body is what the compressor wrote, within the output slice.
  unfoldable pub build_request : Bool → HttpClient E → ℕ → List ℕ → Method (Request crates)
  build_request false c timeout body = pure (plain_request c timeout body)
  build_request true c timeout body = do
    written ← unwrap bad_gzip (E.gzip_compress body empty_slice)
    pure (gzip_request c timeout (take empty_slice written))

  unfoldable pub decode_bytes : Option (List ℕ) → Method ServerToAgent
  decode_bytes none = panic bad_slice
  decode_bytes (some bytes) = unwrap bad_decode (E.decode bytes)

  -- By the `Content-Encoding` of the response.
  unfoldable pub decode_body : Option String → List ℕ → Method ServerToAgent
  decode_body none body = decode_bytes (some body)
  decode_body (some encoding) body =
      if str_eq encoding "gzip"
      then (do
        written ← unwrap bad_gzip (E.gzip_decompress body empty_slice)
        decode_bytes (skip_first (take empty_slice written)))
      else decode_bytes (skip_first body)

  unfoldable pub read_body :
      Option String → Result String (List ℕ) → Method (Result ApiClientError ServerToAgent)
  read_body encoding (ok body) = do message ← decode_body encoding body; pure (ok message)
  read_body encoding (err e) = pure (err (api_client_error 168 e))

  unfoldable pub read_response :
      Result String Response → Method (Result ApiClientError ServerToAgent)
  read_response (err e) = pure (err (api_client_error 159 e))
  read_response (ok response) =
      if E.is_success response
      then (do
        body ← call (E.http_bytes response)
        read_body (E.header response "Content-Encoding") body)
      else pure (err (api_client_error 153 (E.status_text response)))

  unfoldable pub send_and_receive :
      AgentToServer crates → ℕ → Bool → Method (Result ApiClientError ServerToAgent)
  send_and_receive message timeout compress = do
    modify (λ c. record c { seqno = as_u64 (c.seqno + 1) })
    nanos ← get_time_nanos E
    modify (λ c. record c { last_sent_timestamp = nanos })
    c ← gets (λ c. c)
    request ← build_request compress c timeout (E.encode (stamp c.agent_state c.seqno message))
    response ← call (E.http_post request)
    read_response response
