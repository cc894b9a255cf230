-- ===== src/Release/News/Merged.antt =====
-- What merging news keeps, in tools/private/release/changelog_news.py.
use rules_python.Base.{
  nat_eq, text_eq, List, [], ◌∷◌, ◌++◌, Text, ◌==◌, if◌then◌else◌, ◌≡◌, ◌∙◌, sym, arith,
  append_assoc, append-nil,
}
use rules_python.Base.Dict.{Dict, get_or, put, get-put}
use rules_python.Release.News.Merge.{merge_entries}

-- The news of a category, in the order in which they come.
abbrev news_of : Text → Dict Text (List Text) → List Text
news_of cat [] = []
news_of cat ((c, new) ∷ rest) =
    let others = news_of cat rest in if cat == c then new ++ others else others

-- After the merge a category has its entries of before, and behind them all its news.
get_or-merge_entries :
    (cat : Text) (merged news : Dict Text (List Text))
    → get_or cat (merge_entries merged news) [] ≡ get_or cat merged [] ++ news_of cat news
unfolding merge_entries
get_or-merge_entries cat merged [] = sym (append-nil (get_or cat merged []))
get_or-merge_entries cat merged ((c, new) ∷ rest) =
    get_or-merge_entries cat (put c (get_or c merged [] ++ new) merged) rest
    ∙ ground (
      arith,
      get-put cat c (get_or c merged [] ++ new) merged,
      append_assoc (get_or cat merged []) new (news_of cat rest),
    )
