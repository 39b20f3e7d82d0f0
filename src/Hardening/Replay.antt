-- ===== src/Hardening/Replay.antt =====
-- What a client gets back after it was away.
use llm_sca_tooling.Prelude.{List}
use llm_sca_tooling.Prelude.Dict.{Dict}
