-- ===== src/Live/Leaderboard.antt =====
-- backend/app/cache/leaderboard.py: the sorted set of totals, the answered sets and the nicknames.
use livequiz_platform.Prelude.{
  ℕ, suc, ◌+◌, ◌-◌, String, Option, none, some, List, [], ◌∷◌, ◌++◌, any, length, ◌==◌,
  if◌then◌else◌,
}
use livequiz_platform.Live.{Redis, Entry, update}

abbrev pub score_or_zero : Option ℕ → ℕ
score_or_zero none = 0
score_or_zero (some n) = n

abbrev pub total_of : Redis → ℕ → ℕ → ℕ
total_of r match_id participant_id = score_or_zero (r.leaderboard match_id participant_id)

-- `zadd_total`: ZINCRBY, which starts a missing member at 0.
unfoldable pub zadd_total : ℕ → ℕ → ℕ → Redis → Redis
zadd_total match_id participant_id delta r = record r {
  leaderboard = update r.leaderboard match_id (
      update (r.leaderboard match_id) participant_id
        (some (total_of r match_id participant_id + delta)));
}

abbrev pub sadd : ℕ → List ℕ → List ℕ
sadd a xs = if any (λ x. x == a) xs then xs else xs ++ a ∷ []

-- `mark_answered`: SADD.
unfoldable pub mark_answered : ℕ → ℕ → ℕ → Redis → Redis
mark_answered match_id question_id participant_id r = record r {
  answered = update r.answered match_id (
      update (r.answered match_id) question_id
        (sadd participant_id (r.answered match_id question_id)));
}

-- `answered_count`: SCARD.
unfoldable pub answered_count : ℕ → ℕ → Redis → ℕ
answered_count match_id question_id r = length (r.answered match_id question_id)

abbrev put_names : List (ℕ × String) → (ℕ → Option String) → ℕ → Option String
put_names [] names = names
put_names ((pid, nick) ∷ pairs) names = put_names pairs (update names pid (some nick))

-- `set_nicknames`: HSET of every pair.
unfoldable pub set_nicknames : ℕ → List (ℕ × String) → Redis → Redis
set_nicknames match_id pairs r = record r {
  nicknames = update r.nicknames match_id (put_names pairs (r.nicknames match_id));
}

-- `reset`: UNLINK of the sorted set and of the hash.
unfoldable pub reset : ℕ → Redis → Redis
reset match_id r = record r {
  leaderboard = update r.leaderboard match_id (λ _. none);
  nicknames = update r.nicknames match_id (λ _. none);
}

abbrev pub text_or_empty : Option String → String
text_or_empty none = ""
text_or_empty (some s) = s

abbrev number_entries : (ℕ → Option String) → ℕ → List (ℕ × ℕ) → List Entry
number_entries nicks rank [] = []
number_entries nicks rank ((pid, score) ∷ rows) =
    record {
      rank = rank;
      participant_id = pid;
      nickname = text_or_empty (nicks pid);
      score = score;
    }
    ∷ number_entries nicks (suc rank) rows

-- `top`. ZREVRANGE with scores is Redis's own: it is given the sorted set and the last index.
unfoldable pub top : ((ℕ → Option ℕ) → ℕ → List (ℕ × ℕ)) → ℕ → ℕ → Redis → List Entry
top zrevrange match_id n r =
    number_entries (r.nicknames match_id) 1 (zrevrange (r.leaderboard match_id) (n - 1))
