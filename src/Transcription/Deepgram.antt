-- ===== src/Transcription/Deepgram.antt =====
-- src/oreeai_notetaker/integrations/transcription/deepgram.py: the client. What httpx makes of the
-- POST is an argument, and so are Python's `str` and `strip`.
use oreeai_notetaker.Prelude.{
  ℕ, ◌||◌, List, [], ◌∷◌, Option, none, some, String, ◌<>◌, leb, ◌==◌, if◌then◌else◌, show_nat,
}
use oreeai_notetaker.Storage.{AudioSource}
use oreeai_notetaker.Transcription.{
  Transcript, TranscriptionResult, refused, transient, permanent, TranscriptionClient,
}
use oreeai_notetaker.Transcription.Json.{Json, obj}
use oreeai_notetaker.Transcription.Response.{Python, parse_response}

-- `PARAMS`
abbrev pub params : List (String × String)
params =
    ("model", "nova-3")
    ∷ ("diarize_model", "latest")
    ∷ ("utterances", "true")
    ∷ ("punctuate", "true")
    ∷ ("smart_format", "true")
    ∷ []

-- The body of the POST: JSON with the URL, or the file's chunks as audio/wav.
pub data Body : Type 0 where
  json_url file_chunks : String → Body

pub record ListenRequest : Type 0 where
  pub listen_url : String
  pub query : List (String × String)
  pub authorization : String
  pub body : Body

-- `httpx.TimeoutException`, another `httpx.TransportError`, an `OSError` of the file that is
-- streamed, or a response: its status and its body, `none` if that is no JSON.
pub data HttpResult : Type 0 where
  timed_out connection_failed unreadable : HttpResult
  response : ℕ → Option Json → HttpResult

abbrev pub status_hint : ℕ → Option String
status_hint status =
    if status == 401
    then some "auth rejected — check DEEPGRAM_API_KEY"
    else if status == 400
    then some "request rejected — bad parameters or audio"
    else if status == 402
    then some "insufficient credits — operator action required"
    else none

abbrev pub with_hint : String → Option String → String
with_hint detail none = detail
with_hint detail (some hint) = detail <> " (" <> hint <> ")"

-- The part of `transcribe` after the `try` around the POST.
unfoldable pub read_response : Python → ℕ → Option Json → TranscriptionResult Transcript
unfolding parse_response show_nat
read_response python status body =
    if status == 429 || leb 500 status
    then refused (transient ("deepgram returned HTTP " <> show_nat status))
    else if leb 300 status
    then refused
        (permanent (with_hint ("deepgram returned HTTP " <> show_nat status) (status_hint status)))
    else elim body [
      | none ↦ refused (permanent "deepgram returned a non-JSON body")
      | some payload ↦ elim payload [
        | obj fs ↦ parse_response python fs
        | _ ↦ refused (permanent "deepgram response shape unexpected")
      ]
    ]

unfoldable pub read_result : Python → HttpResult → TranscriptionResult Transcript
unfolding read_response
read_result python timed_out = refused (transient "deepgram request timed out")
read_result python connection_failed = refused (transient "deepgram connection failed")
read_result python unreadable = refused (permanent "stored audio unreadable")
read_result python (response status body) = read_response python status body

-- `_file_chunks` and the transports: the URL first, then the path.
unfoldable pub build_request : String → String → AudioSource → Option ListenRequest
build_request api_key listen_url source = elim source.url [
  | some url ↦ some (record {
    listen_url = listen_url;
    query = params;
    authorization = "Token " <> api_key;
    body = json_url url;
  })
  | none ↦ elim source.local_path [
    | some path ↦ some (record {
      listen_url = listen_url;
      query = params;
      authorization = "Token " <> api_key;
      body = file_chunks path;
    })
    | none ↦ none
  ]
]

-- `DeepgramTranscriptionClient.transcribe`; `post` is httpx at a moment.
unfoldable pub deepgram_transcribe :
    Python
    → String
    → String
    → (ℕ → ListenRequest → HttpResult)
    → ℕ
    → AudioSource
    → TranscriptionResult Transcript
unfolding build_request read_result
deepgram_transcribe python api_key listen_url post at source =
    elim (build_request api_key listen_url source) [
      | none ↦ refused (permanent "audio source has no transport")
      | some request ↦ read_result python (post at request)
    ]

pub deepgram_client :
    Python → String → String → (ℕ → ListenRequest → HttpResult) → TranscriptionClient
deepgram_client python api_key listen_url post = record {
  transcribe = deepgram_transcribe python api_key listen_url post;
}
