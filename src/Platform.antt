-- ===== src/Platform.antt =====
-- What the package takes of Python's library: the digest that identities are made of, and `repr`.
use llm_endpoint.Prelude.{String}
use llm_endpoint.Values.{Value}

-- `digest` is `sha256(json.dumps(value, sort_keys=True, …).encode()).hexdigest()`, and `text_repr` is `repr` of a
-- text. Nothing is assumed of them.
pub record Platform : Type 0 where
  pub digest : Value → String
  pub text_repr : String → String
