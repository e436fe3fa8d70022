-- ===== src/Engine/Samples.antt =====
-- An Agent Engine that answers each request with one plan, and the theorems on the client there.
use capstone_project_git_fla.Prelude.{none, some, [], ◌++◌, ◌≡◌, ◌↔◌, refl, Bytes, codes}
use capstone_project_git_fla.Domain.Agent.{no_plan_request, no_code_request}
use capstone_project_git_fla.Errors.{ok}
use capstone_project_git_fla.Engine.{Libraries, answered, generate_plan, generate_files}
use capstone_project_git_fla.Engine.Accepts.{IsPlanFor, generate_plan_iff}
use capstone_project_git_fla.Engine.Answers.{Requests}
use capstone_project_git_fla.Engine.Statuses.{ByAnswer, generate-ByAnswer}
use capstone_project_git_fla.Workflow.Samples.{answer}

-- the body of a response is the text of its plan
abbrev sample_libraries : Libraries
sample_libraries = record {
  encode_plan = λ request. ok request.request_id;
  encode_files = λ request. ok request.request_id;
  decode_plan = λ text. some (answer text);
  decode_files = λ text. none;
  decode_problem = λ text. (text, []);
  new_request = λ url. ok tt;
  send = λ url body. answered 200 (codes "the plan");
}

abbrev address : Bytes
address = codes "http://agent:8000"

generate_plan_iff_example :
    (generate_plan sample_libraries address no_plan_request ≡ ok (answer (codes "the plan")))
    ↔ Requests sample_libraries (ok []) (address ++ codes "/v1/plans/generate") (λ text.
      (some (answer text) ≡ some (answer (codes "the plan")))
      × IsPlanFor no_plan_request (answer (codes "the plan")))
generate_plan_iff_example =
    generate_plan_iff sample_libraries address no_plan_request (answer (codes "the plan"))

generate-ByAnswer_example :
    ByAnswer
      (answered 200 (codes "the plan"))
      (generate_plan sample_libraries address no_plan_request)
    × ByAnswer
        (answered 200 (codes "the plan"))
        (generate_files sample_libraries address no_code_request)
generate-ByAnswer_example =
    generate-ByAnswer sample_libraries address no_plan_request no_code_request [] [] refl refl refl
      refl
