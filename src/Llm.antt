-- ===== src/Llm.antt =====
-- The gateway to the model (backend/atlas/llm/gateway.py). The provider is not modelled: a
-- completion depends on the moment of the call and on the messages, and may fail with `LLMError`.
use atlas_the_agent.Base.{Text}
use atlas_the_agent.Agent.Prompts.{Content}

pub data Role : Type 0 where
  system user assistant : Role

pub record LlmMessage : Type 0 where
  pub role : Role
  pub content : Content

pub data Reply : Type 0 where
  text : Text → Reply
  llm_error : Text → Reply
