-- ===== src/Upstream/Core/Statuses.antt =====
-- CoreClient.Accounts and the statuses of the Core API.
use factory_demo.Base.{◌≡◌, refl, none, true, false, Result, ok, err, arith, ◌==◌}
use factory_demo.Text.{Text}
use factory_demo.Failure.{Failure, Sentinel, error_is, fails_with}
use factory_demo.Upstream.Http.{Response}
use factory_demo.Upstream.Core.{Json, accounts_of}
use factory_demo.Upstream.Core.Redaction.{is_core_class, FailsSafely, body-FailsSafely}

core_class-not_found :
    (e : Failure) → is_core_class e ≡ true → error_is e Sentinel.customer_not_found ≡ false
unfolding error_is
core_class-not_found e h = ground arith

FailsSafely-fails_with :
    {A : Type 0} (r : Result Failure A)
    → FailsSafely r
    → fails_with r Sentinel.customer_not_found ≡ false
FailsSafely-fails_with (ok a) h = refl
FailsSafely-fails_with (err e) h = core_class-not_found e h

-- A response whose body can be read makes Accounts say that the customer was not found exactly when
-- its status is 404.
pub accounts_of-fails_with_not_found :
    (json : Json) (upper_runes : Text → Text) (customer_id : Text) (response : Response)
    → response.body.fault ≡ none
    → fails_with (accounts_of json upper_runes customer_id response) Sentinel.customer_not_found
      ≡ (response.status_code == 404)
unfolding accounts_of error_is
accounts_of-fails_with_not_found json u id response h =
    ground (arith, FailsSafely-fails_with _ (body-FailsSafely json u id response.body h))
