-- ===== src/Runtime/Fake/Names.antt =====
-- The names that `launch` of fake_runtime.py gives out: each carries its own number.
use agentic_crew.Prelude.{ℕ, String, ◌≡◌, refl, ap, ◌∙◌, ◌<>◌, show_nat}
use agentic_crew.Prelude.Numerals.{read_digits, read_digits-append, read_digits-show_nat}
use agentic_crew.Caps.{
  AgentRole, engineering_manager, product_manager, backend_engineer, frontend_engineer, qa_engineer,
  code_reviewer, role_value,
}
use agentic_crew.Runtime.Fake.{agent_name}

unfoldable pub number_of : String → ℕ
number_of name = read_digits 0 name

read_digits-role_value : (role : AgentRole) → read_digits 0 (role_value role) ≡ 0
unfolding read_digits role_value
read_digits-role_value engineering_manager = refl
read_digits-role_value product_manager = refl
read_digits-role_value backend_engineer = refl
read_digits-role_value frontend_engineer = refl
read_digits-role_value qa_engineer = refl
read_digits-role_value code_reviewer = refl

read_digits_dash : read_digits 0 "-" ≡ 0
unfolding read_digits
read_digits_dash = refl

-- The number of an agent can be read off its name.
pub number_of-agent_name : (role : AgentRole) (n : ℕ) → number_of (agent_name role n) ≡ n
unfolding number_of
number_of-agent_name role n =
    read_digits-append 0 (role_value role) ("-" <> show_nat n)
    ∙ ap (λ (k : ℕ). read_digits k ("-" <> show_nat n)) (read_digits-role_value role)
    ∙ read_digits-append 0 "-" (show_nat n)
    ∙ ap (λ (k : ℕ). read_digits k (show_nat n)) read_digits_dash
    ∙ read_digits-show_nat n
