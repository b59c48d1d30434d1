-- ===== src/LivePlanner.antt =====
-- app/agent/live_planner.py: what a provider's answer becomes before the gate reads it.
pub mod Gate
use Prim.Native.String.{◌++◌ as ◌^^◌}
use bounded_refund_agent.Prelude.{
  ℕ, ℤ, pos, String, Bool, true, false, Option, none, some, List, [], ◌∷◌, ◌==◌, if◌then◌else◌,
}
use bounded_refund_agent.Schemas.Gate.{Value, null, value, RawProposal, nothing, mapping}

pub record LiveProposal : Type 0 where
  pub action : String
  pub order_id : String
  pub amount_cents : Option ℤ
  pub reason : String

-- `response.parsed_output`, by its type
pub data ParsedOutput : Type 0 where
  proposal : LiveProposal → ParsedOutput
  dictionary : List (String × Value) → ParsedOutput
  absent : ParsedOutput

-- A block's `type` and `text`, "" where they are missing.
pub record Block : Type 0 where
  pub kind : String
  pub text : String

pub record Response : Type 0 where
  pub parsed_output : ParsedOutput
  pub content : List Block

-- What `json.loads` gives.
pub data Json : Type 0 where
  decode_error : Json
  object : List (String × Value) → Json
  not_an_object : Json

-- The libraries' part: Python's `str` of an integer and pydantic's lax reading of one in a text, and
-- `json.loads`.
pub record Libraries : Type 0 where
  pub text_of_int : ℤ → String
  pub int_of_text : String → Option ℤ
  pub json_loads : String → Json

abbrev pub text_value : Libraries → String → Value
text_value lib s = value s (some s) (lib.int_of_text s)

abbrev pub amount_value : Libraries → Option ℤ → Value
amount_value lib none = null
amount_value lib (some n) = value (lib.text_of_int n) none (some n)

-- `parsed.model_dump()`
unfoldable pub model_dump : Libraries → LiveProposal → List (String × Value)
model_dump lib p =
    ("action", text_value lib p.action)
    ∷ ("order_id", text_value lib p.order_id)
    ∷ ("amount_cents", amount_value lib p.amount_cents)
    ∷ ("reason", text_value lib p.reason)
    ∷ []

unfoldable pub first_text : List Block → String
first_text [] = ""
first_text (block ∷ blocks) =
    let rest = first_text blocks in if block.kind == "text" then block.text else rest

abbrev pub of_json : Json → RawProposal
of_json decode_error = nothing
of_json (object m) = mapping m
of_json not_an_object = nothing

unfoldable pub parse : Libraries → String → RawProposal
parse lib text = of_json (lib.json_loads text)

abbrev pub of_output : Libraries → ParsedOutput → RawProposal → RawProposal
of_output lib (proposal p) fallback = mapping (model_dump lib p)
of_output lib (dictionary m) fallback = mapping m
of_output lib absent fallback = fallback

unfoldable pub as_raw_proposal : Libraries → Response → RawProposal
unfolding model_dump first_text parse
as_raw_proposal lib response =
    of_output lib response.parsed_output (parse lib (first_text response.content))

-- Less `observations`, which nothing fills.
pub record PlannerContext : Type 0 where
  pub run_id : String
  pub scenario_id : String
  pub user_request : String
  pub order_id : String
  pub attempt : ℕ

-- DEFAULT_MODEL, DEFAULT_MAX_TOKENS, DEFAULT_EFFORT
abbrev pub default_model : String
default_model = "claude-opus-5"

abbrev pub default_max_tokens : ℕ
default_max_tokens = 4096

abbrev pub default_effort : Option String
default_effort = some "low"

pub record LivePlanner : Type 0 where
  pub model : String
  pub max_tokens : ℕ
  pub effort : Option String
  pub api_key : String

-- `api_key or os.environ.get(API_KEY_ENV)`; an empty text counts as none.
unfoldable pub resolved_key : Option String → Option String → Option String
resolved_key (some key) environment = if key == "" then environment else some key
resolved_key none environment = environment

abbrev pub enabled : Bool → String → ℕ → Option String → Option String → Option LivePlanner
enabled sdk model max_tokens effort none = none
enabled sdk model max_tokens effort (some key) =
    if key == ""
    then none
    else if sdk
    then some (record { model = model; max_tokens = max_tokens; effort = effort; api_key = key })
    else none

-- `LivePlanner.__init__`; `none` is LivePlannerDisabled, and `sdk` says whether the SDK is installed.
unfoldable pub new_planner :
    Bool → Option String → String → ℕ → Option String → Option String → Option LivePlanner
unfolding resolved_key
new_planner sdk environment model max_tokens api_key effort =
    enabled sdk model max_tokens effort (resolved_key api_key environment)

-- The keyword arguments of `messages.parse`, less the fixed prompt and output format.
pub record Request : Type 0 where
  pub model : String
  pub max_tokens : ℕ
  pub content : String
  pub effort : Option String

-- `_render_request`, with `str` of a number; the actions are sorted.
unfoldable pub render_request : Libraries → PlannerContext → String
render_request lib context =
    "order_id: "
    ^^ (context.order_id
        ^^ ("\nattempt: "
            ^^ (lib.text_of_int (pos context.attempt)
                ^^ ("\nallowed actions: cancel_order, create_support_ticket, issue_refund\ncustomer says: "
                    ^^ context.user_request))))

abbrev pub request_of : Libraries → LivePlanner → PlannerContext → Request
request_of lib planner context = record {
  model = planner.model;
  max_tokens = planner.max_tokens;
  content = render_request lib context;
  effort = planner.effort;
}

-- `LivePlanner.propose`; `client` is `messages.parse`.
unfoldable pub propose_live :
    Libraries → (Request → Response) → LivePlanner → PlannerContext → RawProposal
unfolding render_request as_raw_proposal
propose_live lib client planner context =
    as_raw_proposal lib (client (request_of lib planner context))
