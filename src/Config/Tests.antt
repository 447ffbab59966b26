-- ===== src/Config/Tests.antt =====
-- Configured predicates on subjects of which the method and the status are known; the response's is
-- that of hitbox-configuration/tests/test_reponse.rs.
use hitbox.Prelude.{ℕ, true, some, List, [], ◌∷◌, ◌≡◌, refl, arith}
use hitbox.Core.Predicate.{neutral}
use hitbox.Core.Response.{ok}
use hitbox.Http.Heads.{OneOf, StatusOperation, status_predicate, method_predicate}
use hitbox.Http.Operation.{Operation, body_predicate}
use hitbox.Http.Operation.Transparency.{Forwards}
use hitbox.Config.Heads as Heads
use hitbox.Config.Body as Body
use hitbox.Config.Heads.{PathOperation}
use hitbox.Config.Body.{BodyOperationConfig}
use hitbox.Config.Status as Status
use hitbox.Config.Status.Laws.{status_holds}
use hitbox.Config.Leaves.{RequestLeaf, ResponseLeaf, request_leaf, response_leaf}
use hitbox.Config.Leaves.Laws.{
  RequestHead, ResponseHead, of_request, of_response, request_holds, response_holds,
  request_leaf-IsTested, response_leaf-IsTested, into_predicates-path,
}
use hitbox.Config.Meaning.{Answers}
use hitbox.Config.Request as Request
use hitbox.Config.Request.{Request}
use hitbox.Config.Request.Meaning.{holds_request}
use hitbox.Config.Request.Laws.{into_predicates-Answers_request}
use hitbox.Config.Response as Response
use hitbox.Config.Response.{Response}
use hitbox.Config.Response.Meaning.{holds_response}
use hitbox.Config.Response.Laws.{into_predicates-Answers, into_predicates-or_of}
use hitbox.Config.Transparency.{into_predicates-Forwards}
use hitbox.Config.Samples.{lib, subject}

same : (code status : ℕ) → lib.from_u16 code ≡ some status → status ≡ code
same code status e = ground (arith, e)

abbrev status_is : ℕ → Response.Expression ResponseHead
status_is code = Response.predicate (ResponseHead.status (Status.eq_of (Status.implicit code)))

abbrev others : Response.Expressions ResponseHead
others = Response.cons (status_is 200) (Response.cons (status_is 202) Response.end)

abbrev one_of : Response.Expression ResponseHead
one_of = Response.operation (Response.or_of (Response.cons (status_is 201) others))

abbrev configured : Response ResponseHead
configured = Response.tree (
    Response.operation
      (Response.and_of (Response.cons (status_is 203) (Response.cons one_of Response.end))))

into_predicates-Answers_example :
    Answers
      (λ p. response_leaf lib (of_response p))
      subject
      (holds_response (response_holds lib subject same) configured)
      (Response.into_predicates (λ p. response_leaf lib (of_response p)) configured)
into_predicates-Answers_example =
    into_predicates-Answers (λ p. response_leaf lib (of_response p))
      (response_holds lib subject same) subject (response_leaf-IsTested lib subject same) configured

-- A response of the status 200 is accepted, though 203 is asked of it.
accepted : holds_response (response_holds lib subject same) configured ≡ true
unfolding holds_response response_holds status_holds
accepted = refl

converted :
    response_leaf lib
      (of_response (ResponseHead.status (Status.eq_of (Status.implicit 203))))
      neutral
    ≡ ok (status_predicate lib.head lib.map_ lib.classes (StatusOperation.eq 203) neutral)
unfolding response_leaf Status.status_into_predicates
converted = refl

into_predicates-or_of_example :
    Response.into_predicates (λ p. response_leaf lib (of_response p)) configured
    ≡ Response.into_predicates
        (λ p. response_leaf lib (of_response p))
        (Response.tree (Response.operation (Response.and_of (Response.cons one_of Response.end))))
into_predicates-or_of_example =
    into_predicates-or_of (λ p. response_leaf lib (of_response p))
      (ResponseHead.status (Status.eq_of (Status.implicit 203)))
      (status_predicate lib.head lib.map_ lib.classes (StatusOperation.eq 203) neutral)
      (status_is 201) others Response.end converted

-- `And: [Or: [Method: GET], Not: Path: /books]`
abbrev get_method : RequestHead
get_method = RequestHead.method (OneOf.eq "GET")

abbrev gets : Request.Expression RequestHead
gets = Request.operation (Request.or_of (Request.cons (Request.predicate get_method) Request.end))

abbrev no_books : Request.Expressions RequestHead
no_books =
    Request.cons
      (Request.operation
        (Request.not_of (Request.predicate (RequestHead.path (PathOperation.in_ ("/books" ∷ []))))))
      Request.end

abbrev requests : Request RequestHead
requests = Request.tree (Request.operation (Request.and_of (Request.cons gets no_books)))

into_predicates-Answers_request_example :
    Answers
      (λ p. request_leaf lib (of_request p))
      subject
      (holds_request (request_holds lib subject) requests)
      (Request.into_predicates (λ p. request_leaf lib (of_request p)) requests)
into_predicates-Answers_request_example =
    into_predicates-Answers_request (λ p. request_leaf lib (of_request p))
      (request_holds lib subject) subject (request_leaf-IsTested lib subject) requests

abbrev books : RequestLeaf ℕ
books = RequestLeaf.path (PathOperation.in_ ("/books" ∷ []))

abbrev gets_only : List (RequestLeaf ℕ)
gets_only = RequestLeaf.method (OneOf.eq "GET") ∷ []

converted_gets :
    Request.into_predicates (request_leaf lib) (Request.flat gets_only)
    ≡ ok (method_predicate lib.head lib.map_ lib.classes (OneOf.eq "GET") neutral)
unfolding Request.into_predicates request_leaf Heads.method_into_predicates
converted_gets = refl

into_predicates-path_example :
    Request.into_predicates (request_leaf lib) (Request.flat (books ∷ gets_only))
    ≡ Request.into_predicates (request_leaf lib) (Request.flat (books ∷ []))
into_predicates-path_example =
    into_predicates-path lib "/books" [] gets_only
      (method_predicate lib.head lib.map_ lib.classes (OneOf.eq "GET") neutral) converted_gets

abbrev short_bodies : List (ResponseLeaf ℕ)
short_bodies = ResponseLeaf.body (BodyOperationConfig.limit 1) ∷ []

converted_bodies :
    Response.into_predicates (response_leaf lib) (Response.flat short_bodies)
    ≡ ok (body_predicate lib.http lib.jaq lib.is_match (Operation.limit 1) neutral)
unfolding Response.into_predicates response_leaf Body.body_into_predicates
converted_bodies = refl

into_predicates-Forwards_example :
    Forwards subject
      (method_predicate lib.head lib.map_ lib.classes (OneOf.eq "GET") neutral subject)
    × Forwards subject
        (body_predicate lib.http lib.jaq lib.is_match (Operation.limit 1) neutral subject)
into_predicates-Forwards_example =
    into_predicates-Forwards lib (λ s. refl) (Request.flat gets_only) (Response.flat short_bodies)
      (method_predicate lib.head lib.map_ lib.classes (OneOf.eq "GET") neutral)
      (body_predicate lib.http lib.jaq lib.is_match (Operation.limit 1) neutral) subject
      converted_gets converted_bodies
