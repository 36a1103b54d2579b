-- ===== src/TryBlock/Tests.antt =====
-- A try-block whose exception a handler takes, and a finally-block.
use hf_qcorral.Prelude.{◌≡◌, refl, none, some, false, true, List, [], ◌∷◌, ◌==◌}
use hf_qcorral.TryBlock.{
  TryBlock, catch, runs, returns, raises, Handler, make, await_suspend, in_finally,
}
use hf_qcorral.TryBlock.Rethrow
use hf_qcorral.TryBlock.Rethrow.{proxy, plain, found, find_exception, find_exception-append}
use hf_qcorral.TryBlock.Semantics.{after_try, block_end, Ends, settle, is_try, is_catch, run-Ends}

abbrev handlers : List Handler
handlers =
    record { accepts = λ ex. ex == 7; body = runs }
    ∷ record { accepts = λ ex. true; body = runs }
    ∷ []

run-Ends_example :
    let r = after_try runs handlers (raises 7) returns in
    Ends r.0 r.1 (block_end runs returns) (
      settle in_finally returns (
        settle is_catch returns
          (settle is_try (raises 7) (await_suspend (make runs handlers runs)))))
run-Ends_example = run-Ends runs handlers runs (raises 7) returns returns

abbrev handling : TryBlock
handling = record {
  try_body = runs;
  handlers = handlers;
  finally_body = runs;
  stage = catch;
  early_cancel = false;
  completed = false;
  exception = some 7;
  task = true;
  cancel_sent = 0;
  parent_resumed = 0;
  terminated = false;
}

find_exception-append_example :
    find_exception (Rethrow.task none ∷ proxy ∷ Rethrow.task (some handling) ∷ plain ∷ []) ≡ found 7
unfolding Rethrow.parent_exception
find_exception-append_example =
    find_exception-append (Rethrow.task none ∷ proxy ∷ []) (plain ∷ []) handling 7
      (refl, (refl, tt)) refl
