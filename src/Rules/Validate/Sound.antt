-- ===== src/Rules/Validate/Sound.antt =====
-- What the parsers of the single parts let pass.
use morpheus_proxy.Prelude.{ℕ, ◌≡◌, refl, true, not, Option, none, some, Text, arith}
use morpheus_proxy.Json.{Json, Fields}
use morpheus_proxy.Rules.Types.{Protocol, http, grpc, protocol_eq, Stage}
use morpheus_proxy.Rules.Validate.Issues.{RuleValidationIssue, integer_in, is_within, optional}
use morpheus_proxy.Rules.Validate.Actions.{
  parse_delay, parse_fault, parse_http_fault, parse_grpc_fault, parse_connection_fault,
  parse_timeout_fault, is_total_request, parse_script_timeout, is_below, parse_http_mock,
  parse_grpc_mock, parse_mock,
}
use morpheus_proxy.Rules.Validate.Returns.{
  Returns, returns, fails, bind-Returns, anything, require-Returns, integer_in-Returns,
  optional-Returns, weaken, switch-Returns,
}
use morpheus_proxy.Rules.Validate.Valid.{
  Present, IsPositive, ValidDelay, ValidFault, ValidMock, ValidTimeout,
}

pub parse_delay-Valid :
    (input : Json) (path : Text) (stage : Stage)
    → Returns (ValidDelay stage) (parse_delay input path stage)
unfolding parse_delay
parse_delay-Valid input path stage = bind-Returns (anything _) (λ fs p.
    bind-Returns (integer_in-Returns 1 none _ _) (λ duration positive.
      bind-Returns (anything _) (λ mode q.
        bind-Returns (require-Returns (not (is_total_request mode stage)) _)
          (λ u h. returns (ground arith, ground arith)))))

protocol_eq-http : (p : Protocol) → protocol_eq p http ≡ true → p ≡ http
protocol_eq-http http h = refl
protocol_eq-http grpc h = cc

protocol_eq-grpc : (p : Protocol) → protocol_eq p grpc ≡ true → p ≡ grpc
protocol_eq-grpc grpc h = refl
protocol_eq-grpc http h = cc

parse_http_fault-Valid :
    (fs : Fields) (path : Text) (protocol : Protocol)
    → Returns (ValidFault protocol) (parse_http_fault fs path protocol)
unfolding parse_http_fault
parse_http_fault-Valid fs path protocol =
    bind-Returns (require-Returns (protocol_eq protocol http) _) (λ u h.
      bind-Returns (integer_in-Returns 100 (some 599) _ _) (λ status k.
        bind-Returns (anything _) (λ headers p.
          bind-Returns (anything _)
            (λ body q. returns (protocol_eq-http protocol h, ground arith, ground arith)))))

parse_grpc_fault-Valid :
    (fs : Fields) (path : Text) (protocol : Protocol)
    → Returns (ValidFault protocol) (parse_grpc_fault fs path protocol)
unfolding parse_grpc_fault
parse_grpc_fault-Valid fs path protocol =
    bind-Returns (require-Returns (protocol_eq protocol grpc) _) (λ u h.
      bind-Returns (integer_in-Returns 0 (some 16) _ _) (λ status k.
        bind-Returns (anything _) (λ message p.
          bind-Returns (anything _)
            (λ metadata q. returns (protocol_eq-grpc protocol h, ground arith)))))

parse_connection_fault-Valid :
    (fs : Fields) (path : Text) (protocol : Protocol)
    → Returns (ValidFault protocol) (parse_connection_fault fs path)
unfolding parse_connection_fault
parse_connection_fault-Valid fs path protocol =
    switch-Returns _ _ _ (returns tt, (returns tt, tt)) fails

pub IsPositive-of_within : (n : ℕ) → is_within 1 none n ≡ true → IsPositive n
IsPositive-of_within n h = ground arith

pub optional-IsPositive :
    (value : Option Json) (e : RuleValidationIssue)
    → Returns (Present IsPositive) (optional value (λ v. integer_in 1 none v e))
optional-IsPositive value e =
    optional-Returns value _
      (λ v. weaken (λ n h. IsPositive-of_within n h) (integer_in-Returns 1 none v e))

parse_timeout_fault-Valid :
    (fs : Fields) (path : Text) (protocol : Protocol)
    → Returns (ValidFault protocol) (parse_timeout_fault fs path)
unfolding parse_timeout_fault
parse_timeout_fault-Valid fs path protocol =
    bind-Returns (optional-IsPositive _ _) (λ duration h. returns h)

pub parse_fault-Valid :
    (input : Option Json) (path : Text) (protocol : Protocol)
    → Returns (ValidFault protocol) (parse_fault input path protocol)
unfolding parse_fault
parse_fault-Valid input path protocol = bind-Returns (anything _) (λ fs p.
    switch-Returns _ _ _
      (
        parse_http_fault-Valid fs path protocol,
        (
          parse_grpc_fault-Valid fs path protocol,
          (
            parse_connection_fault-Valid fs path protocol,
            (parse_timeout_fault-Valid fs path protocol, tt),
          ),
        ),
      )
      fails)

pub parse_script_timeout-Valid :
    (max : Option ℕ) (fs : Fields) (path : Text)
    → Returns (Present (ValidTimeout max)) (parse_script_timeout max fs path)
unfolding parse_script_timeout
parse_script_timeout-Valid max fs path = optional-Returns _ _ (λ v.
    bind-Returns (integer_in-Returns 1 none v _) (λ timeout h.
      bind-Returns (require-Returns (is_below max timeout) _)
        (λ u k. returns (IsPositive-of_within timeout h, k))))

parse_http_mock-Valid :
    (fs : Fields) (path : Text) → Returns (ValidMock http) (parse_http_mock fs path)
unfolding parse_http_mock
parse_http_mock-Valid fs path = bind-Returns (anything _) (λ u p.
    bind-Returns (integer_in-Returns 100 (some 599) _ _) (λ status h.
      bind-Returns (anything _) (λ headers q.
        bind-Returns (anything _)
          (λ body r. returns ((ground arith, ground arith), refl, refl, refl, refl, refl)))))

parse_grpc_mock-Valid :
    (fs : Fields) (path : Text) → Returns (ValidMock grpc) (parse_grpc_mock fs path)
unfolding parse_grpc_mock
parse_grpc_mock-Valid fs path = bind-Returns (anything _) (λ u p.
    bind-Returns (integer_in-Returns 0 (some 16) _ _) (λ status h.
      bind-Returns (anything _) (λ message q. bind-Returns (anything _) (λ messages r.
        bind-Returns (anything _) (λ metadata s. returns (ground arith, refl, refl, refl, refl))))))

pub parse_mock-Valid :
    (fs : Fields) (path : Text) (protocol : Protocol)
    → Returns (ValidMock protocol) (parse_mock fs path protocol)
unfolding parse_mock
parse_mock-Valid fs path http =
    bind-Returns (anything _) (λ response p. parse_http_mock-Valid response path)
parse_mock-Valid fs path grpc =
    bind-Returns (anything _) (λ response p. parse_grpc_mock-Valid response path)
