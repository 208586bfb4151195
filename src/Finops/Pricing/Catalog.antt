-- ===== src/Finops/Pricing/Catalog.antt =====
-- optimizer/provider_pricing.py: the rates of the models, and how a model's name finds its rates.
use jake_ai.Prelude.{
  Dict, List, Option, String, [], codes, contains, if◌then◌else◌, leb, length, lower, none, or_else,
  same_codes, some, strip, ℕ, ◌||◌, ◌∷◌,
}

pub record ModelPricing : Type 0 where
  pub model_id : String
  pub provider : String
  pub input_per_million : ℕ
  pub cache_read_per_million : ℕ
  pub cache_write_per_million : ℕ
  pub output_per_million : ℕ

abbrev rates : String → String → ℕ → ℕ → ℕ → ℕ → ModelPricing
rates model_id provider input cache_read cache_write output = record {
  model_id = model_id;
  provider = provider;
  input_per_million = input;
  cache_read_per_million = cache_read;
  cache_write_per_million = cache_write;
  output_per_million = output;
}

abbrev pub claude_3_5_sonnet : ModelPricing
claude_3_5_sonnet = rates "claude-3-5-sonnet" "anthropic" 300000 30000 375000 1500000

abbrev pub claude_3_haiku : ModelPricing
claude_3_haiku = rates "claude-3-haiku" "anthropic" 25000 2500 30000 125000

abbrev pub claude_3_opus : ModelPricing
claude_3_opus = rates "claude-3-opus" "anthropic" 1500000 150000 1875000 7500000

abbrev pub gpt_4o : ModelPricing
gpt_4o = rates "gpt-4o" "openai" 250000 125000 250000 1000000

abbrev pub gpt_4o_mini : ModelPricing
gpt_4o_mini = rates "gpt-4o-mini" "openai" 15000 7500 15000 60000

abbrev pub o1 : ModelPricing
o1 = rates "o1" "openai" 1500000 750000 1500000 6000000

abbrev pub o3_mini : ModelPricing
o3_mini = rates "o3-mini" "openai" 110000 55000 110000 440000

abbrev pub gemini_1_5_flash : ModelPricing
gemini_1_5_flash = rates "gemini-1.5-flash" "gemini" 7500 1875 7500 30000

abbrev pub gemini_1_5_pro : ModelPricing
gemini_1_5_pro = rates "gemini-1.5-pro" "gemini" 350000 87500 350000 1050000

abbrev pub gemini_2_0_flash : ModelPricing
gemini_2_0_flash = rates "gemini-2.0-flash" "gemini" 10000 2500 10000 40000

abbrev pub deepseek_chat : ModelPricing
deepseek_chat = rates "deepseek-chat" "deepseek" 14000 1400 14000 28000

abbrev pub deepseek_reasoner : ModelPricing
deepseek_reasoner = rates "deepseek-reasoner" "deepseek" 55000 14000 55000 219000

abbrev pub openrouter_auto : ModelPricing
openrouter_auto = rates "openrouter/auto" "openrouter" 200000 200000 200000 800000

abbrev pub local_model : ModelPricing
local_model = rates "local-model" "local" 10000 10000 10000 20000

abbrev pub llama_3_3_70b_versatile : ModelPricing
llama_3_3_70b_versatile = rates "llama-3.3-70b-versatile" "groq" 59000 59000 59000 79000

abbrev pub llama_3_1_8b_instant : ModelPricing
llama_3_1_8b_instant = rates "llama-3.1-8b-instant" "groq" 5000 5000 5000 8000

abbrev pub default_pricing : ModelPricing
default_pricing = rates "default-llm" "generic" 200000 100000 200000 800000

-- `PRICING_CATALOG`
abbrev pub pricing_catalog : Dict ModelPricing
pricing_catalog =
    ("claude-3-5-sonnet", claude_3_5_sonnet)
    ∷ ("claude-3-haiku", claude_3_haiku)
    ∷ ("claude-3-opus", claude_3_opus)
    ∷ ("gpt-4o", gpt_4o)
    ∷ ("gpt-4o-mini", gpt_4o_mini)
    ∷ ("o1", o1)
    ∷ ("o3-mini", o3_mini)
    ∷ ("gemini-1.5-flash", gemini_1_5_flash)
    ∷ ("gemini-1.5-pro", gemini_1_5_pro)
    ∷ ("gemini-2.0-flash", gemini_2_0_flash)
    ∷ ("deepseek-chat", deepseek_chat)
    ∷ ("deepseek-reasoner", deepseek_reasoner)
    ∷ ("openrouter/auto", openrouter_auto)
    ∷ ("local-model", local_model)
    ∷ ("llama-3.3-70b-versatile", llama_3_3_70b_versatile)
    ∷ ("llama-3.1-8b-instant", llama_3_1_8b_instant)
    ∷ []

-- `sorted(items, key=len, reverse=True)`: longer names first, else in order
unfoldable pub insert_by_length : String × ModelPricing → Dict ModelPricing → Dict ModelPricing
insert_by_length (k, p) [] = (k, p) ∷ []
insert_by_length (k, p) ((j, q) ∷ d) =
    let rest = insert_by_length (k, p) d in
    if leb (length (codes j)) (length (codes k)) then (k, p) ∷ (j, q) ∷ d else (j, q) ∷ rest

unfoldable pub by_length : Dict ModelPricing → Dict ModelPricing
by_length [] = []
by_length (entry ∷ d) = insert_by_length entry (by_length d)

unfoldable pub exact : List ℕ → Dict ModelPricing → Option ModelPricing
exact m [] = none
exact m ((k, p) ∷ d) = let rest = exact m d in if same_codes (codes k) m then some p else rest

-- the first name that contains the model or that it contains
unfoldable pub closest : List ℕ → Dict ModelPricing → Option ModelPricing
closest m [] = none
closest m ((k, p) ∷ d) =
    let rest = closest m d in if contains (codes k) m || contains m (codes k) then some p else rest

unfoldable pub by_family : List ℕ → ModelPricing
by_family m =
    if contains (codes "claude") m
    then claude_3_5_sonnet
    else if contains (codes "gemini") m
    then gemini_1_5_flash
    else if contains (codes "deepseek") m
    then deepseek_chat
    else if contains (codes "llama") m || contains (codes "groq") m
    then llama_3_3_70b_versatile
    else if contains (codes "mini") m
    then gpt_4o_mini
    else if contains (codes "gpt") m
    then gpt_4o
    else default_pricing

unfoldable pub get_model_pricing : String → ModelPricing
get_model_pricing model =
    let m = strip (lower (codes model)) in
    or_else (exact m pricing_catalog)
      (or_else (closest m (by_length pricing_catalog)) (by_family m))
