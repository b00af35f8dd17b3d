-- ===== src/Types/Ids.antt =====
-- The string-backed identities of types.rs, each with its derived equality.
use text.Mathlib.Text.{◌==◌ as str_eq}
use text.Mathlib.TextEquality.{eq_iff}
use einsof.Prelude.{String, PartialEq, true, ◌≡◌, ◌↔◌, ap}

pub record AgentId : Type 0 where
  pub text : String

agent_id_of_text : (a b : AgentId) → a.text ≡ b.text → a ≡ b
agent_id_of_text a b p = λ i. record { text = p i }

pub agent_id_beq_iff : (a b : AgentId) → (str_eq a.text b.text ≡ true) ↔ (a ≡ b)
agent_id_beq_iff a b = (
  λ h. agent_id_of_text a b ((eq_iff a.text b.text).0 h),
  λ p. (eq_iff a.text b.text).1 (ap (λ c. c.text) p),
)

instance abbrev pub agent_id_eq : PartialEq AgentId
agent_id_eq = record { eq = λ a b. str_eq a.text b.text; lawful = agent_id_beq_iff }

pub record ToolId : Type 0 where
  pub text : String

tool_id_of_text : (a b : ToolId) → a.text ≡ b.text → a ≡ b
tool_id_of_text a b p = λ i. record { text = p i }

pub tool_id_beq_iff : (a b : ToolId) → (str_eq a.text b.text ≡ true) ↔ (a ≡ b)
tool_id_beq_iff a b = (
  λ h. tool_id_of_text a b ((eq_iff a.text b.text).0 h),
  λ p. (eq_iff a.text b.text).1 (ap (λ c. c.text) p),
)

instance abbrev pub tool_id_eq : PartialEq ToolId
tool_id_eq = record { eq = λ a b. str_eq a.text b.text; lawful = tool_id_beq_iff }

pub record InvocationId : Type 0 where
  pub text : String

invocation_id_of_text : (a b : InvocationId) → a.text ≡ b.text → a ≡ b
invocation_id_of_text a b p = λ i. record { text = p i }

pub invocation_id_beq_iff : (a b : InvocationId) → (str_eq a.text b.text ≡ true) ↔ (a ≡ b)
invocation_id_beq_iff a b = (
  λ h. invocation_id_of_text a b ((eq_iff a.text b.text).0 h),
  λ p. (eq_iff a.text b.text).1 (ap (λ c. c.text) p),
)

instance abbrev pub invocation_id_eq : PartialEq InvocationId
invocation_id_eq = record { eq = λ a b. str_eq a.text b.text; lawful = invocation_id_beq_iff }

pub record ChallengeId : Type 0 where
  pub text : String

challenge_id_of_text : (a b : ChallengeId) → a.text ≡ b.text → a ≡ b
challenge_id_of_text a b p = λ i. record { text = p i }

pub challenge_id_beq_iff : (a b : ChallengeId) → (str_eq a.text b.text ≡ true) ↔ (a ≡ b)
challenge_id_beq_iff a b = (
  λ h. challenge_id_of_text a b ((eq_iff a.text b.text).0 h),
  λ p. (eq_iff a.text b.text).1 (ap (λ c. c.text) p),
)

instance abbrev pub challenge_id_eq : PartialEq ChallengeId
challenge_id_eq = record { eq = λ a b. str_eq a.text b.text; lawful = challenge_id_beq_iff }

pub record AttestationId : Type 0 where
  pub text : String

attestation_id_of_text : (a b : AttestationId) → a.text ≡ b.text → a ≡ b
attestation_id_of_text a b p = λ i. record { text = p i }

pub attestation_id_beq_iff : (a b : AttestationId) → (str_eq a.text b.text ≡ true) ↔ (a ≡ b)
attestation_id_beq_iff a b = (
  λ h. attestation_id_of_text a b ((eq_iff a.text b.text).0 h),
  λ p. (eq_iff a.text b.text).1 (ap (λ c. c.text) p),
)

instance abbrev pub attestation_id_eq : PartialEq AttestationId
attestation_id_eq = record { eq = λ a b. str_eq a.text b.text; lawful = attestation_id_beq_iff }

pub record CrossingId : Type 0 where
  pub text : String

crossing_id_of_text : (a b : CrossingId) → a.text ≡ b.text → a ≡ b
crossing_id_of_text a b p = λ i. record { text = p i }

pub crossing_id_beq_iff : (a b : CrossingId) → (str_eq a.text b.text ≡ true) ↔ (a ≡ b)
crossing_id_beq_iff a b = (
  λ h. crossing_id_of_text a b ((eq_iff a.text b.text).0 h),
  λ p. (eq_iff a.text b.text).1 (ap (λ c. c.text) p),
)

instance abbrev pub crossing_id_eq : PartialEq CrossingId
crossing_id_eq = record { eq = λ a b. str_eq a.text b.text; lawful = crossing_id_beq_iff }

pub record AssignmentDigest : Type 0 where
  pub text : String

assignment_digest_of_text : (a b : AssignmentDigest) → a.text ≡ b.text → a ≡ b
assignment_digest_of_text a b p = λ i. record { text = p i }

pub assignment_digest_beq_iff : (a b : AssignmentDigest) → (str_eq a.text b.text ≡ true) ↔ (a ≡ b)
assignment_digest_beq_iff a b = (
  λ h. assignment_digest_of_text a b ((eq_iff a.text b.text).0 h),
  λ p. (eq_iff a.text b.text).1 (ap (λ c. c.text) p),
)

instance abbrev pub assignment_digest_eq : PartialEq AssignmentDigest
assignment_digest_eq = record {
  eq = λ a b. str_eq a.text b.text;
  lawful = assignment_digest_beq_iff;
}

pub record PolicyDigest : Type 0 where
  pub text : String

policy_digest_of_text : (a b : PolicyDigest) → a.text ≡ b.text → a ≡ b
policy_digest_of_text a b p = λ i. record { text = p i }

pub policy_digest_beq_iff : (a b : PolicyDigest) → (str_eq a.text b.text ≡ true) ↔ (a ≡ b)
policy_digest_beq_iff a b = (
  λ h. policy_digest_of_text a b ((eq_iff a.text b.text).0 h),
  λ p. (eq_iff a.text b.text).1 (ap (λ c. c.text) p),
)

instance abbrev pub policy_digest_eq : PartialEq PolicyDigest
policy_digest_eq = record { eq = λ a b. str_eq a.text b.text; lawful = policy_digest_beq_iff }

pub record ContentHash : Type 0 where
  pub text : String

content_hash_of_text : (a b : ContentHash) → a.text ≡ b.text → a ≡ b
content_hash_of_text a b p = λ i. record { text = p i }

pub content_hash_beq_iff : (a b : ContentHash) → (str_eq a.text b.text ≡ true) ↔ (a ≡ b)
content_hash_beq_iff a b = (
  λ h. content_hash_of_text a b ((eq_iff a.text b.text).0 h),
  λ p. (eq_iff a.text b.text).1 (ap (λ c. c.text) p),
)

instance abbrev pub content_hash_eq : PartialEq ContentHash
content_hash_eq = record { eq = λ a b. str_eq a.text b.text; lawful = content_hash_beq_iff }

-- `AgentId::root()`.
abbrev pub root : AgentId
root = record { text = "root" }
