-- ===== src/Config/Tests.antt =====
-- The configuration of src/config.c read from short texts.
use os_lab.Prelude.{◌≡◌, refl, false, true, [], ◌∷◌, ◌++◌, some, Bytes, codes, str_eq}
use os_lab.Disk.{Disk}
use os_lab.Config.{
  default_config, trim_whitespace, drop_blank, drop_spaces, read_line, read_lines, fgets_lines,
  config_init, before, from,
}
use os_lab.Config.Options.{IsWord, Sets, read_line-option}

abbrev two_lines : Bytes
two_lines = codes "# c\ndatabase_file = a.db\n"

abbrev empty : Disk
empty = record { dirs = []; files = [] }

config_init-two_lines :
    (config_init true false empty (some two_lines)).1
    ≡ record default_config { database_file = codes "a.db" }
unfolding config_init read_lines read_line fgets_lines trim_whitespace drop_blank drop_spaces before
    from str_eq
config_init-two_lines = refl

-- `database_file` and `a` as words.
key_IsWord : IsWord (codes "database_file")
key_IsWord = record {
  plain = (
    (refl, refl),
    (
      (refl, refl),
      (
        (refl, refl),
        (
          (refl, refl),
          (
            (refl, refl),
            (
              (refl, refl),
              (
                (refl, refl),
                (
                  (refl, refl),
                  (
                    (refl, refl),
                    ((refl, refl), ((refl, refl), ((refl, refl), ((refl, refl), tt)))),
                  ),
                ),
              ),
            ),
          ),
        ),
      ),
    ),
  );
  starts = refl;
  ends = refl;
}

value_IsWord : IsWord (codes "a")
value_IsWord = record { plain = ((refl, refl), tt); starts = refl; ends = refl }

read_line-option_example : Sets default_config (codes "database_file") (codes "a") (
    read_line default_config (
      ((codes " " ++ (codes "database_file" ++ [])) ++ 61 ∷ (codes " " ++ (codes "a" ++ [])))
      ++ 10 ∷ []))
read_line-option_example =
    read_line-option default_config (codes " ") (codes "database_file") [] (codes " ") (codes "a")
      [] (refl, tt) key_IsWord tt (refl, tt) value_IsWord tt refl
