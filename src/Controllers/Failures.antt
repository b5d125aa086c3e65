-- ===== src/Controllers/Failures.antt =====
-- What the closures `fail` of the reconcilers disclose.
use kafkarator.Base.{◌≡◌, refl, Bool, String, some, arith}
use kafkarator.Base.Int.{pos}
use kafkarator.Go.{Error, AivenError, as_aiven}
use kafkarator.External.{TopicStatus, StreamStatus}
use kafkarator.Controllers.Common.{describe_failure}
use kafkarator.Controllers.TopicProcess
use kafkarator.Controllers.StreamProcess

described :
    (e f : Error) (a b : AivenError)
    → as_aiven e ≡ some a
    → as_aiven f ≡ some b
    → a.status ≡ pos 200
    → b.status ≡ pos 200
    → describe_failure e ≡ describe_failure f
unfolding describe_failure
described e f a b p q s t = ground arith

-- An error of the Aiven client with the status 200 may carry a response body. Nothing of it reaches the
-- result, neither the status of the resource nor the error: any two such errors, wrapped or not, give
-- the same result, in both reconcilers.
pub fail_result-hides :
    (e f : Error) (a b : AivenError)
    → as_aiven e ≡ some a
    → as_aiven f ≡ some b
    → a.status ≡ pos 200
    → b.status ≡ pos 200
    → ((status : TopicStatus) (state : String) (retry : Bool) (now : String)
        → TopicProcess.fail_result status e state retry now
          ≡ TopicProcess.fail_result status f state retry now)
      × ((status : StreamStatus) (state : String) (retry : Bool)
          → StreamProcess.fail_result status e state retry
            ≡ StreamProcess.fail_result status f state retry)
unfolding TopicProcess.fail_result StreamProcess.fail_result
fail_result-hides e f a b p q s t =
    let same = described e f a b p q s t in
    (λ status state retry now. rw same refl, λ status state retry. rw same refl)
